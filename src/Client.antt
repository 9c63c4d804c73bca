-- ===== src/Client.antt =====
-- lwm2m_client.c: the standard objects, the object tree and the start of the client.
pub mod Start
use lynx_lwm2m.Base.{
  ℕ, Bool, true, false, Option, none, some, List, [], ◌∷◌, ℤ, pos, negsuc, bit_or, Run, ok, ◌>>=◌,
}
use lynx_lwm2m.Items.{Items, list_new, ladd}
use lynx_lwm2m.Model.{
  Kind, integer, string, opaque, boolean, no_kind, Cell, ExecuteParam, Resource, Instance, Object,
  State, Context, Scheduler, Server, op_read, op_write, op_execute,
}
use lynx_lwm2m.Scheduler.{scheduler_start}
use lynx_lwm2m.Transport.{Surroundings}
use lynx_lwm2m.Register.{deregister_on_server}
use lynx_lwm2m.Register.Accounts.{lwm2m_register}
use lynx_lwm2m.Bootstrap.{lwm2m_bootstrap}

-- `malloc` leaves the callback for EXECUTE as it finds the memory: `unset`. A value, a length and
-- the lists of a definition are not looked at.
module _ (unset : Option (Items ExecuteParam → Cell → Cell)) where
  -- The fields that the tables set.
  unfoldable pub definition :
      (id : ℤ) → Kind → (multiple mandatory : Bool) → (operations : ℕ) → Resource
  definition id kind multiple mandatory operations = record {
    cell = record {
      id = id;
      kind = kind;
      value = none;
      length = pos 0;
      freed = false;
      parsed = false;
    };
    multiple = multiple;
    mandatory = mandatory;
    operations = operations;
    instances = none;
    attributes = list_new;
    observers = list_new;
    read_callback = none;
    write_callback = none;
    execute_callback = unset;
  }

  -- No operation of a server may touch the security object: NOOP.
  unfoldable pub create_security_object_resources : List Resource
  unfolding definition
  create_security_object_resources =
      definition (pos 0) string false true 0
      ∷ definition (pos 1) boolean false true 0
      ∷ definition (pos 2) integer false false 0
      ∷ definition (pos 3) opaque false false 0
      ∷ definition (pos 4) opaque false false 0
      ∷ definition (pos 5) opaque false false 0
      ∷ definition (pos 6) integer false false 0
      ∷ definition (pos 7) opaque false false 0
      ∷ definition (pos 8) opaque false false 0
      ∷ definition (pos 9) string false false 0
      ∷ definition (pos 10) integer false false 0
      ∷ definition (pos 11) integer false false 0
      ∷ definition (pos 12) integer false false 0
      ∷ []

  unfoldable pub create_server_object_resources : List Resource
  unfolding definition
  create_server_object_resources =
      definition (pos 0) integer false true op_read
      ∷ definition (pos 1) integer false true (bit_or op_read op_write)
      ∷ definition (pos 2) integer false false (bit_or op_read op_write)
      ∷ definition (pos 3) integer false false (bit_or op_read op_write)
      ∷ definition (pos 4) no_kind false false op_execute
      ∷ definition (pos 5) integer false false (bit_or op_read op_write)
      ∷ definition (pos 6) boolean false true (bit_or op_read op_write)
      ∷ definition (pos 7) string false true (bit_or op_read op_write)
      ∷ definition (pos 8) no_kind false true op_execute
      ∷ []

  unfoldable pub create_access_control_object_resources : List Resource
  unfolding definition
  create_access_control_object_resources =
      definition (pos 0) integer false true op_read
      ∷ definition (pos 1) integer false true op_read
      ∷ definition (pos 2) integer true false (bit_or op_read op_write)
      ∷ definition (pos 3) integer false true (bit_or op_read op_write)
      ∷ []

  unfoldable pub standard_object : (id : ℤ) → (mandatory : Bool) → List Resource → Object
  standard_object id mandatory resource_def = record {
    id = id;
    instances = list_new;
    attributes = list_new;
    observers = list_new;
    multiple = true;
    mandatory = mandatory;
    resource_def = resource_def;
  }

  unfoldable pub create_standard_objects : Items Object
  unfolding standard_object create_security_object_resources create_server_object_resources
      create_access_control_object_resources
  create_standard_objects =
      let security = standard_object (pos 0) true create_security_object_resources in
      let server = standard_object (pos 1) true create_server_object_resources in
      let access_control = standard_object (pos 2) false create_access_control_object_resources in
      ladd (ladd (ladd list_new (pos 0) security) (pos 1) server) (pos 2) access_control

  -- One of the two loops: each object gets an empty list of instances.
  unfoldable pub add_objects : List (ℤ × Object) → Items Object → Items Object
  add_objects [] object_tree = object_tree
  add_objects ((key, object) ∷ next) object_tree =
      add_objects next (ladd object_tree key (record object { instances = list_new }))

  unfoldable pub create_object_tree : (objects : Items Object) → Context → Context
  unfolding create_standard_objects add_objects
  create_object_tree objects context = record context {
    object_tree =
        add_objects objects.first (add_objects create_standard_objects.first context.object_tree);
  }

-- `lwm2m_create_context`: the fields that are not set are those of the memory that `malloc` gives.
unfoldable pub create_context : (memory : Context) → Context
create_context memory = record memory {
  object_tree = list_new;
  servers = list_new;
  update_tasks = list_new;
  is_bootstrap_ready = true;
  has_smartcard = false;
  object_tree_lock = 1;
}

unfoldable pub deregister : Surroundings → Context → Server → Run Context
unfolding deregister_on_server
deregister env context server = deregister_on_server env context server

-- What the other threads do while the client waits, for the two waits of the bootstrap and the one
-- of the registration.
pub record Others : Type 0 where
  pub server_steps : List (Context → Run Context)
  pub client_steps : List (Context → Run Context)
  pub register_steps : List (Context → Run Context)

-- What the program that uses the library has given the client.
pub record Setup : Type 0 where
  pub objects : Items Object
  pub smartcard_bootstrap_callback : Option (Context → Context × ℕ)
  pub factory_bootstrap_callback : Option (Context → Context × ℕ)

-- `start_mqtt` connects, which calls `on_connect`: it is the argument `start_mqtt`.
unfoldable pub lwm2m_start_client :
    (unset : Option (Items ExecuteParam → Cell → Cell))
    → Surroundings
    → (start_mqtt : Context → Run Context) → Setup
    → Others
    → Context
    → Run Context
unfolding create_object_tree lwm2m_bootstrap scheduler_start lwm2m_register
lwm2m_start_client unset env start_mqtt setup others context = do
  context ← start_mqtt (create_object_tree unset setup.objects context)
  (context, bootstrap_result) ←
      lwm2m_bootstrap env setup.smartcard_bootstrap_callback setup.factory_bootstrap_callback
        others.server_steps others.client_steps context
  let context = record context { scheduler = scheduler_start context.scheduler }
  (context, register_result) ← lwm2m_register env others.register_steps context
  ok context
