-- ===== src/Tests/Sessions.antt =====
-- The theorems on the client's sessions with servers at concrete contexts.
use lynx_lwm2m.Transport.Incomplete.{handle_bootstrap_write_request-missing}
use lynx_lwm2m.Transport.Handle.{handle_bootstrap_write_request}
use lynx_lwm2m.Tlv.Parse.{parse_instance}
use lynx_lwm2m.Base.{
  ℕ, ◌+◌, ◌≡◌, ◌↔◌, ◌&&◌, ◌||◌, refl, true, false, Option, none, some, List, [], ◌∷◌, ◌++◌, ℤ, pos,
  negsuc, length, ok, fault, Run, arith, is_some, if◌then◌else◌, ltb, ◌==ℤ◌,
}
use lynx_lwm2m.Items.{list_new, ladd, lfind}
use lynx_lwm2m.Model.{Response, Resource, Instance, Object, Context, bootstrapped, string}
use lynx_lwm2m.Cell.{c_string, read_string}
use lynx_lwm2m.Text.{codes, print_int, same_text, into_buffer}
use lynx_lwm2m.Management.Create.{on_instance_create}
use lynx_lwm2m.AccessControl.{
  check_create_object_access_control, check_resource_operation_supported,
}
use lynx_lwm2m.Tlv.Header.{serialize_header}
use lynx_lwm2m.Tlv.Value.{serialize_value}
use lynx_lwm2m.Tlv.Serialize.{serialize_instance}
use lynx_lwm2m.Attribute.{server_instance_of, empty_attr, get_object_pmin, get_object_pmax}
use lynx_lwm2m.Wire.{Topic, Request, parse_topic, serialize_topic, serialize_response}
use lynx_lwm2m.Wire.Topics.{topic_text}
use lynx_lwm2m.Transport.{generate_token, resolve_server, put_server, perform_notify_response}
use lynx_lwm2m.Discover.{on_object_discover}
use lynx_lwm2m.Transport.Receive.{receive_known, receive_request, handle_request}
use lynx_lwm2m.Transport.Answered.{handling, receive_known-answered}
use lynx_lwm2m.Transport.Frames.Handlers.{handle_request-Keeps}
use lynx_lwm2m.Reporting.{empty_response}
use lynx_lwm2m.Transport.Sent.{receive_request-Ignored}
use lynx_lwm2m.Object.{instance_new_with_id, resource_from_def, create_resources_from_def}
use lynx_lwm2m.Object.Merge.{Place, find_place, find_instance}
use lynx_lwm2m.Reporting.Send.{notify_object_func}
use lynx_lwm2m.Reporting.Sends.{notify_object_func_sent}
use lynx_lwm2m.Register.{
  get_lifetime, get_binding_mode, serialize_update_params, deregister_on_server,
}
use lynx_lwm2m.Register.Accounts.{on_server_register, lwm2m_register}
use lynx_lwm2m.Register.Params.{told, update_params_lem}
use lynx_lwm2m.Register.Leave.{gone, leaving, deregister_on_server_lem}
use lynx_lwm2m.Bootstrap.{free_attribute, on_bootstrap_delete_all, on_bootstrap_finish}
use lynx_lwm2m.Bootstrap.Frees.{free_attribute_twice, on_bootstrap_delete_all-freed}
use lynx_lwm2m.Bootstrap.Operations.{has_mandatory}
use lynx_lwm2m.Client.{definition, standard_object, create_security_object_resources}
use lynx_lwm2m.Client.Start.{Closed, security_instance-Closed}
use lynx_lwm2m.Tests.Data.{
  server, client, surroundings, account, meters, meter, object_of, single, string_cell, context,
  level, instance_of, int_cell, secret, busy, task_at,
}

abbrev discover_topic : Topic
discover_topic = record {
  operation = codes "mm";
  type = codes "req";
  client_id = codes "c1";
  server_id = codes "main";
  token = codes "t0";
  object_id = pos 5;
  instance_id = negsuc 0;
  resource_id = negsuc 0;
}

abbrev empty_request : Request
empty_request = record { content_type = 0; payload = [] }

abbrev discover_text : List ℕ
discover_text = codes "lynx/mm/res/t0/c1/main/5"

abbrev discovered : List ℕ
discovered = codes "<5/>,<5/0/0>,<5/0/1>"

receive_known-answered_example :
    receive_known surroundings (some (server (pos 10))) client discover_topic empty_request
    ≡ ok (record client {
      published = record { topic = discover_text; message = 1 ∷ 4 ∷ discovered } ∷ [];
    })
unfolding handle_request serialize_topic serialize_response resolve_server ladd lfind put_server
    on_object_discover get_object_pmin get_object_pmax print_int into_buffer
receive_known-answered_example =
    receive_known-answered surroundings client (server (pos 10)) discover_topic refl refl
      empty_request (handling surroundings client (server (pos 10)) discover_topic refl refl client)
      discover_topic (record { content_type = 1; response_code = 204; payload = discovered })
      discover_text (1 ∷ 4 ∷ discovered) refl refl refl refl

abbrev create_topic : Topic
create_topic = record discover_topic { operation = codes "mc"; instance_id = pos 0 }

-- What a handler returns; one that does not return leaves the client.
abbrev returned : Run (Context × Topic × Response) → Context × Topic × Response
returned (ok result) = result
returned _ = (client, create_topic, empty_response 0)

-- A CREATE of an instance of object 5.
handle_request-Keeps_example :
    (returned (handle_request surroundings client create_topic empty_request)).0.servers
    ≡ client.servers
unfolding handle_request ladd lfind on_instance_create check_create_object_access_control
handle_request-Keeps_example =
    handle_request-Keeps surroundings client create_topic empty_request
      (returned (handle_request surroundings client create_topic empty_request)) refl

-- A client that does not know the server.
receive_request-Ignored_example :
    receive_request surroundings (record client { servers = list_new }) discover_topic (0 ∷ []) ≡ (
      if ltb (length (topic_text discover_topic)) 100
      then ok (record client { servers = list_new })
      else fault)
unfolding resolve_server same_text
receive_request-Ignored_example =
    receive_request-Ignored surroundings (record client { servers = list_new }) discover_topic 0 []
      tt (omega arith, omega arith) (omega arith, omega arith) (omega arith, omega arith) refl refl
      refl

abbrev no_int : Option ℤ
no_int = none

abbrev no_float : Option ℕ
no_float = none

free_attribute_twice_example :
    ((is_some (some (pos 5))
        && (is_some (some (pos 9))
            || is_some no_int
            || is_some no_float
            || is_some no_float
            || is_some no_float))
      ≡ true)
    ↔ (free_attribute (record empty_attr { pmin = some (pos 5); pmax = some (pos 9) }) ≡ fault)
free_attribute_twice_example =
    free_attribute_twice (record empty_attr { pmin = some (pos 5); pmax = some (pos 9) })

-- Another thread that ends the bootstrap.
abbrev finish : Context → Run Context
finish context = ok (on_bootstrap_finish context)

abbrev after_finish : Context
after_finish = record client {
  state = bootstrapped;
  is_bootstrap_ready = false;
  published = record { topic = codes "lynx/clients/c1"; message = codes "1" } ∷ [];
}

-- The meter after the memory of all instances was given back.
abbrev given_back : Resource → Resource
given_back resource = record resource { cell = record (resource.cell) { freed = true } }

abbrev freed_meter : Instance
freed_meter = record meter {
  resources = ladd (ladd list_new (pos 0) (given_back level)) (pos 1) (given_back secret);
}

abbrev freed_place : Place
freed_place = record {
  object = record meters { instances = ladd list_new (pos 1) freed_meter };
  instance' = freed_meter;
  resource = given_back level;
}

on_bootstrap_delete_all-freed_example : freed_place.resource.freed ≡ true
unfolding on_bootstrap_delete_all find_place ladd lfind
on_bootstrap_delete_all-freed_example =
    on_bootstrap_delete_all-freed context _ (pos 5) (pos 1) (pos 0) freed_place refl refl

-- An object with a mandatory resource.
abbrev lamps : Object
lamps = object_of (pos 5) list_new (record level { mandatory = true } ∷ [])

abbrev lamp_context : Context
lamp_context = record client { object_tree = ladd list_new (pos 5) lamps }

abbrev uri : Resource
uri = resource_from_def (definition none (pos 0) string false true 0)

security_instance-Closed_example : Closed uri
unfolding lfind instance_new_with_id create_resources_from_def standard_object
    create_security_object_resources ladd resource_from_def
security_instance-Closed_example = security_instance-Closed none (pos 0) (pos 0) uri refl

-- A server that was told of a lifetime of 30, not 60.
update_params_lem_example :
    serialize_update_params client (told client (server (pos 10)) (codes "U") (pos 30) [])
    ≡ (if pos 60 ==ℤ pos 30 then ok [] else ok (codes "ep=" ++ codes "lamp"))
unfolding server_instance_of get_lifetime get_binding_mode lfind ladd read_string
update_params_lem_example =
    update_params_lem client (server (pos 10)) account (pos 60) (codes "U") refl refl refl (pos 30)
      [] (omega arith)

-- The client with a task that updates the registration.
abbrev leaving_client : Context
leaving_client = record client { scheduler = busy; update_tasks = ladd list_new (pos 10) 1 }

deregister_on_server_lem_example :
    let leaving' = leaving surroundings leaving_client (server (pos 10)) in
    (context' : Context) × (text : List ℕ) × (deregister_on_server surroundings leaving_client
        (server (pos 10))
      ≡ ok context')
    × (parse_topic text ≡ ok leaving')
    × (context'.published ≡ record { topic = text; message = 0 ∷ c_string (0 ∷ []) } ∷ [])
    × (context'.object_tree_lock ≡ 1)
    × (resolve_server context' discover_topic ≡ some (gone (server (pos 10))))
unfolding lfind ladd resolve_server topic_text generate_token
deregister_on_server_lem_example =
    deregister_on_server_lem surroundings leaving_client (server (pos 10)) 0 1
      (task_at (pos 2) (pos 120)) refl refl refl refl refl discover_topic refl (refl, (refl, tt))
      (refl, (refl, (refl, (refl, tt)))) (omega arith)

-- What a run returns, or the second argument.
abbrev value_of {ℓ} : {A : Type ℓ} → Run A → A → A
value_of (ok a) other = a
value_of _ other = other

-- The client with an account of the server in the security object.
abbrev security : Instance
security = instance_of (pos 0) (
    ladd (ladd list_new (pos 0) (single (string_cell (pos 0) (codes "main")) 0)) (pos 10)
      (single (int_cell (pos 10) (pos 10)) 0))

abbrev unregistered : Context
unregistered = record client {
  servers = list_new;
  object_tree =
      ladd client.object_tree (pos 0) (object_of (pos 0) (ladd list_new (pos 0) security) []);
}

-- A server that answers the registration.
abbrev answer : Context → Run Context
answer context = on_server_register surroundings context (server (pos 10)) 201

abbrev after_register : Context × ℤ
after_register =
    value_of (lwm2m_register surroundings (answer ∷ []) unregistered) (unregistered, negsuc 0)

abbrev notified : Context
notified =
    value_of
      (notify_object_func (pos 100) leaving_client 1 (server (pos 10)) meters (codes "t0") none)
      leaving_client

notify_object_func_sent_example :
    length notified.published ≡ length meters.instances.first + length leaving_client.published
unfolding notify_object_func ladd serialize_topic serialize_instance
    check_resource_operation_supported serialize_value perform_notify_response serialize_header
notify_object_func_sent_example =
    notify_object_func_sent (pos 100) leaving_client notified 1 (server (pos 10)) meters
      (codes "t0") refl

-- The lamp without its resource.
abbrev lamp_topic : Topic
lamp_topic = record discover_topic { operation = codes "bw"; instance_id = pos 0 }

handle_bootstrap_write_request-missing_example :
    (context' : Context) × (handle_bootstrap_write_request surroundings lamp_context lamp_topic
        empty_request
      ≡ ok (context', empty_response 201))
    × (find_instance context' (pos 5) (pos 0) ≡ ok (instance_new_with_id lamps (pos 0)))
unfolding lfind ladd instance_new_with_id has_mandatory parse_instance
handle_bootstrap_write_request-missing_example =
    handle_bootstrap_write_request-missing surroundings lamp_context lamp_topic empty_request lamps
      list_new refl refl refl refl refl refl refl refl
