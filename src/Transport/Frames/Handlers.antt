-- ===== src/Transport/Frames/Handlers.antt =====
-- lwm2m_transport.c: the list of servers in the handlers.
use lynx_lwm2m.Base.{◌≡◌, ok, Run, deref, Option-cases, inl, inr}
use lynx_lwm2m.Model.{Context, Response, Resource, Instance, Object}
use lynx_lwm2m.Object.{put_object}
use lynx_lwm2m.Wire.{Topic, Request}
use lynx_lwm2m.Transport.{Surroundings}
use lynx_lwm2m.Discover.{on_resource_discover, on_instance_discover, on_object_discover}
use lynx_lwm2m.Transport.Handle.{
  Named, by_level, on_null, put_named_resource, put_named_instance, put_named_object,
  handle_write_request, handle_read_request, handle_create_request, handle_delete_request,
  handle_discover_request, handle_observe_request, handle_cancel_observe_request,
  handle_write_attributes_request, handle_execute_request,
}
use lynx_lwm2m.Transport.Receive.{handle_request}
use lynx_lwm2m.Transport.Frames.{
  KeepsFirst, KeepsTriple, Returns-after, keeping_rules, KeepsTriple-elim,
}
use lynx_lwm2m.Transport.Frames.Operations.{
  on_resource_write-Keeps, on_instance_write-Keeps, on_resource_read-Keeps, on_instance_read-Keeps,
  on_object_read-Keeps, on_instance_create-Keeps, on_instance_delete-Keeps,
  on_resource_execute-Keeps, on_resource_observe-Keeps, on_instance_observe-Keeps,
  on_object_observe-Keeps, on_resource_cancel_observe-Keeps, on_instance_cancel_observe-Keeps,
  on_object_cancel_observe-Keeps,
}

module _ (env : Surroundings) (context : Context) (topic : Topic) (request : Request) where
  handle_read_request-Keeps :
      KeepsFirst context.servers (handle_read_request env context topic request)
  unfolding handle_read_request
  handle_read_request-Keeps =
      search (keeping_rules, on_resource_read-Keeps, on_instance_read-Keeps, on_object_read-Keeps)
        depth 12

  handle_write_request-Keeps :
      KeepsFirst context.servers (handle_write_request env context topic request)
  unfolding handle_write_request on_null
  handle_write_request-Keeps =
      search (keeping_rules, on_resource_write-Keeps, on_instance_write-Keeps) depth 12

  handle_create_request-Keeps :
      KeepsTriple context.servers (handle_create_request env context topic request)
  unfolding handle_create_request
  handle_create_request-Keeps = search (keeping_rules, on_instance_create-Keeps) depth 12

  handle_delete_request-Keeps :
      KeepsFirst context.servers (handle_delete_request context topic request)
  unfolding handle_delete_request on_null
  handle_delete_request-Keeps = search (keeping_rules, on_instance_delete-Keeps) depth 12

  handle_execute_request-Keeps :
      KeepsFirst context.servers (handle_execute_request env context topic request)
  unfolding handle_execute_request
  handle_execute_request-Keeps = search (keeping_rules, on_resource_execute-Keeps) depth 12

  by_level-Keeps :
      (named : Named) (on_resource : Object → Instance → Resource → Run (Context × Response))
      (on_instance : Object → Instance → Run (Context × Response))
      (on_object : Object → Run (Context × Response))
      → ((object : Object) (i : Instance) (resource : Resource)
          → KeepsFirst context.servers (on_resource object i resource))
      → ((object : Object) (i : Instance) → KeepsFirst context.servers (on_instance object i))
      → ((object : Object) → KeepsFirst context.servers (on_object object))
      → KeepsFirst context.servers (by_level named on_resource on_instance on_object)
  unfolding by_level
  by_level-Keeps named on_resource on_instance on_object kr ki ko =
      Returns-after (λ result. result.0.servers ≡ context.servers) (deref named.object) _
        (λ object. elim (Option-cases named.instance') [
          | inl e ↦ rw e (ko object)
          | inr (i, e) ↦ rw e (elim (Option-cases named.resource) [
            | inl e ↦ rw e (ki object i)
            | inr (resource, e) ↦ rw e (kr object i resource)
          ])
        ])

  handle_cancel_observe_request-Keeps :
      KeepsFirst context.servers (handle_cancel_observe_request context topic request)
  unfolding handle_cancel_observe_request put_named_resource put_named_instance put_named_object
      put_object
  handle_cancel_observe_request-Keeps =
      search
        (
          keeping_rules, by_level-Keeps, on_resource_cancel_observe-Keeps,
          on_instance_cancel_observe-Keeps, on_object_cancel_observe-Keeps,
        )
        depth 12

  handle_observe_request-Keeps :
      KeepsFirst context.servers (handle_observe_request env context topic request)
  unfolding handle_observe_request put_named_resource put_named_instance put_named_object put_object
  handle_observe_request-Keeps =
      search
        (
          keeping_rules, by_level-Keeps, on_resource_observe-Keeps, on_instance_observe-Keeps,
          on_object_observe-Keeps,
        )
        depth 12

  handle_discover_request-Keeps :
      KeepsFirst context.servers (handle_discover_request env context topic request)
  unfolding handle_discover_request on_resource_discover on_instance_discover on_object_discover
  handle_discover_request-Keeps = search (keeping_rules, by_level-Keeps) depth 12

  handle_write_attributes_request-Keeps :
      KeepsFirst context.servers (handle_write_attributes_request env context topic request)
  unfolding handle_write_attributes_request put_named_resource put_named_instance put_named_object
      put_object
  handle_write_attributes_request-Keeps = search (keeping_rules, by_level-Keeps) depth 12

  handled-Keeps : KeepsTriple context.servers (handle_request env context topic request)
  unfolding handle_request
  handled-Keeps =
      search
        (
          keeping_rules, handle_write_request-Keeps, handle_read_request-Keeps,
          handle_create_request-Keeps, handle_delete_request-Keeps, handle_discover_request-Keeps,
          handle_observe_request-Keeps, handle_cancel_observe_request-Keeps,
          handle_write_attributes_request-Keeps, handle_execute_request-Keeps,
        )
        depth 16

  -- Whatever operation a request asks for: a handler that returns has left the list of servers as it
  -- was.
  pub handle_request-Keeps :
      (result : Context × Topic × Response)
      → handle_request env context topic request ≡ ok result
      → result.0.servers ≡ context.servers
  handle_request-Keeps result =
      KeepsTriple-elim context.servers (handle_request env context topic request) result
        handled-Keeps
