-- ===== src/Transport/Incomplete.antt =====
-- lwm2m_transport.c and lwm2m_bootstrap.c: a bootstrap write that lacks a mandatory resource.
use lynx_lwm2m.Base.{◌≡◌, refl, true, false, none, some, ok, pos, length}
use lynx_lwm2m.Items.{Items, lfind}
use lynx_lwm2m.Model.{Resource, Object, Context, code_created}
use lynx_lwm2m.Object.{instance_new_with_id}
use lynx_lwm2m.Object.Merge.{find_instance}
use lynx_lwm2m.Tlv.Parse.{parse_instance}
use lynx_lwm2m.Reporting.{empty_response}
use lynx_lwm2m.Wire.{Topic, Request}
use lynx_lwm2m.Transport.{Surroundings}
use lynx_lwm2m.Bootstrap.Operations.{has_mandatory, on_bootstrap_instance_write}
use lynx_lwm2m.Bootstrap.Missing.{bootstrap_create_instance-missing}
use lynx_lwm2m.Transport.Handle.{undefined, handle_bootstrap_write_request}

-- A bootstrap write of an instance that is not there, on an object of several ones, whose payload
-- does not give every mandatory resource: the server is answered 201, as after a success, and the
-- tree holds a new instance, made from the object's definitions alone, without the payload.
pub handle_bootstrap_write_request-missing :
    (env : Surroundings) (context : Context) (topic : Topic) (request : Request) (object : Object)
    (parsed : Items Resource)
    → undefined topic.instance_id ≡ false
    → undefined topic.resource_id ≡ true
    → lfind context.object_tree topic.object_id ≡ some object
    → object.id ≡ topic.object_id
    → object.multiple ≡ true
    → lfind object.instances topic.instance_id ≡ none
    → parse_instance env.libc env.fuel object request.payload 0 (pos (length request.payload))
      ≡ ok parsed
    → has_mandatory (instance_new_with_id object topic.instance_id).1.resources.first parsed ≡ false
    → (context' : Context) × (handle_bootstrap_write_request env context topic request
        ≡ ok (context', empty_response code_created))
      × (find_instance context' topic.object_id topic.instance_id
          ≡ ok (instance_new_with_id object topic.instance_id))
unfolding handle_bootstrap_write_request on_bootstrap_instance_write
handle_bootstrap_write_request-missing env context topic request object parsed at whole found same
      multiple absent parses missing =
    let (context', run, there) =
      bootstrap_create_instance-missing env context object topic.object_id topic.instance_id parsed
        found same multiple missing in
    (context', rw (at, whole, found, parses, absent, run) refl, there)
