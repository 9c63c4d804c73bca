-- ===== src/Transport/Handle.antt =====
-- lwm2m_transport.c: the handlers, which find what a topic names and call the operation. A pointer
-- that is NULL is passed on; an operation that takes the lock first waits for it before it reads it.
use lynx_lwm2m.Base.{
  ℕ, Bool, not, ◌&&◌, Option, none, some, if◌then◌else◌, ℤ, negsuc, ◌==ℤ◌, is_some, Run, ok, fault,
  ◌>>=◌, deref,
}
use lynx_lwm2m.Items.{lfind}
use lynx_lwm2m.Model.{
  Resource, Instance, Object, Server, Context, Response, code_created, code_deleted, code_content,
}
use lynx_lwm2m.Attribute.{
  on_resource_write_attributes, on_instance_write_attributes, on_object_write_attributes,
}
use lynx_lwm2m.Object.{put_object, put_instance, put_resource}
use lynx_lwm2m.Reporting.{
  empty_response, on_resource_observe, on_instance_observe, on_object_observe,
  on_resource_cancel_observe, on_instance_cancel_observe, on_object_cancel_observe,
}
use lynx_lwm2m.Management.{
  lock_tree, on_resource_write, on_instance_write, on_instance_delete, on_resource_execute,
}
use lynx_lwm2m.Management.Read.{on_resource_read, on_instance_read, on_object_read}
use lynx_lwm2m.Management.Create.{on_instance_create}
use lynx_lwm2m.Discover.{on_resource_discover, on_instance_discover, on_object_discover}
use lynx_lwm2m.Bootstrap.{on_bootstrap_delete_all, on_bootstrap_delete, on_bootstrap_finish}
use lynx_lwm2m.Bootstrap.Operations.{
  on_bootstrap_object_write, on_bootstrap_instance_write, on_bootstrap_resource_write,
}
use lynx_lwm2m.Wire.{Topic, Request, parse_args}
use lynx_lwm2m.Transport.{
  Surroundings, resolve_server, resolve_object, resolve_instance, resolve_resource,
}

abbrev pub undefined : ℤ → Bool
undefined id = id ==ℤ negsuc 0

-- An operation on an instance that is NULL: the lock is taken, then NULL is read.
unfoldable pub on_null {ℓ} : {A : Type ℓ} → Context → Run A
unfolding lock_tree
on_null context = do held ← lock_tree context; fault

-- What the identifiers of a topic name.
pub record Named : Type 0 where
  pub server : Server
  pub object : Option Object
  pub instance' : Option Instance
  pub resource : Option Resource

unfoldable pub resolve : Context → Topic → Run Named
unfolding resolve_server resolve_object resolve_instance resolve_resource
resolve context topic =
    let object = resolve_object context topic in
    let i = resolve_instance object topic in
    do
      server ← deref (resolve_server context topic)
      ok (record {
        server = server;
        object = object;
        instance' = i;
        resource = resolve_resource i topic;
      })

-- Which of the three operations the handlers of observe, discover and attributes call.
unfoldable pub by_level {ℓ} :
    {A : Type ℓ}
    → Named
    → (on_resource : Object → Instance → Resource → Run A)
    → (on_instance : Object → Instance → Run A) → (on_object : Object → Run A) → Run A
by_level {A = A} named on_resource on_instance on_object = do
  object ← deref named.object
  at_object object named.instance' named.resource
  where
    at_instance : Object → Instance → Option Resource → Run A
    at_instance object i none = on_instance object i
    at_instance object i (some resource) = on_resource object i resource

    at_object : Object → Option Instance → Option Resource → Run A
    at_object object none resource = on_object object
    at_object object (some i) resource = at_instance object i resource

unfoldable pub put_named_resource :
    Object → Instance → Context × Resource × Response → Context × Response
unfolding put_object put_instance put_resource
put_named_resource object i (context, resource, response) =
    (put_object context (put_instance object (put_resource i resource)), response)

unfoldable pub put_named_instance : Object → Context × Instance × Response → Context × Response
unfolding put_object put_instance
put_named_instance object (context, i, response) =
    (put_object context (put_instance object i), response)

unfoldable pub put_named_object : Context × Object × Response → Context × Response
unfolding put_object
put_named_object (context, object, response) = (put_object context object, response)

-- The results of a run, changed.
abbrev map_run {ℓ κ} : {A : Type ℓ} {B : Type κ} → (A → B) → Run A → Run B
map_run f m = m >>= (λ a. ok (f a))

unfoldable pub handle_bootstrap_delete_request :
    Context → Topic → Request → Run (Context × Response)
unfolding on_bootstrap_delete_all on_bootstrap_delete
handle_bootstrap_delete_request context topic request =
    let delete_one = (do
      object ← deref (lfind context.object_tree topic.object_id)
      i ← deref (lfind object.instances topic.instance_id)
      on_bootstrap_delete context object i) in
    map_run (λ context. (context, empty_response code_deleted))
      (if undefined topic.instance_id then on_bootstrap_delete_all context else delete_one)

unfoldable pub handle_bootstrap_finish_request :
    Context → Topic → Request → Run (Context × Response)
unfolding on_bootstrap_finish
handle_bootstrap_finish_request context topic request =
    ok (on_bootstrap_finish context, empty_response code_created)

unfoldable pub handle_delete_request : Context → Topic → Request → Run (Context × Response)
unfolding resolve on_null
handle_delete_request context topic request = do
  named ← resolve context topic
  if is_some named.instance'
      then on_instance_delete context named.server topic.object_id topic.instance_id
      else on_null context

unfoldable pub handle_cancel_observe_request : Context → Topic → Request → Run (Context × Response)
unfolding resolve by_level put_named_resource put_named_instance put_named_object
handle_cancel_observe_request context topic request = do
  named ← resolve context topic
  by_level named
      (λ object i resource.
        map_run (put_named_resource object i)
          (on_resource_cancel_observe context named.server resource))
      (λ object i.
        map_run (put_named_instance object) (on_instance_cancel_observe context named.server i))
      (λ object. map_run put_named_object (on_object_cancel_observe context named.server object))

module _ (env : Surroundings) where
  unfoldable pub handle_bootstrap_write_request :
      Context → Topic → Request → Run (Context × Response)
  unfolding resolve_object resolve_instance resolve_resource on_bootstrap_resource_write
      on_bootstrap_instance_write on_bootstrap_object_write
  handle_bootstrap_write_request context topic request =
      let o = topic.object_id in
      let i = topic.instance_id in
      let payload = request.payload in
      map_run (λ (result : Context × ℕ). (result.0, empty_response code_created))
        (if not (undefined i) && not (undefined topic.resource_id)
          then on_bootstrap_resource_write env context o i topic.resource_id payload
          else if not (undefined i)
          then on_bootstrap_instance_write env context o i payload
          else on_bootstrap_object_write env context o payload)

  unfoldable pub handle_write_request : Context → Topic → Request → Run (Context × Response)
  unfolding resolve on_null
  handle_write_request context topic request =
      let write_resource = λ (server : Server).
        on_resource_write env.libc env.fuel env.now context server topic.object_id topic.instance_id
          topic.resource_id request.payload in
      let write_instance = λ (server : Server).
        on_instance_write env.libc env.fuel env.now context server topic.object_id topic.instance_id
          request.payload in
      do
        named ← resolve context topic
        map_run (λ (result : Context × ℕ). (result.0, empty_response result.1))
            (if undefined topic.resource_id
              then (if is_some named.instance'
                  then write_instance named.server
                  else on_null context)
              else (if is_some named.instance' then write_resource named.server else fault))

  unfoldable pub handle_read_request : Context → Topic → Request → Run (Context × Response)
  unfolding resolve
  handle_read_request context topic request = do
    named ← resolve context topic
    if undefined topic.instance_id then on_object_read context named.server topic.object_id else (do
      object ← deref named.object
      if undefined topic.resource_id
          then on_instance_read context named.server topic.object_id topic.instance_id
          else (do
            i ← deref named.instance'
            on_resource_read env.libc context named.server topic.object_id topic.instance_id
                topic.resource_id))

  -- The topic of the answer has the identifier of the new instance.
  unfoldable pub handle_create_request :
      Context → Topic → Request → Run (Context × Topic × Response)
  unfolding resolve
  handle_create_request context topic request = do
    named ← resolve context topic
    (context, instance_id, response) ←
        on_instance_create env.libc env.fuel env.unset env.now context named.server topic.object_id
          topic.instance_id request.payload
    ok (context, record topic { instance_id = instance_id }, response)

  unfoldable pub handle_observe_request : Context → Topic → Request → Run (Context × Response)
  unfolding resolve by_level put_named_resource put_named_instance put_named_object
  handle_observe_request context topic request = do
    named ← resolve context topic
    by_level named
        (λ object i resource. map_run (put_named_resource object i) (
          on_resource_observe env.now env.task_id context named.server object i resource
            topic.token))
        (λ object i.
          map_run (put_named_instance object)
            (on_instance_observe env.now env.task_id context named.server object i topic.token))
        (λ object.
          map_run put_named_object
            (on_object_observe env.now env.task_id context named.server object topic.token))

  unfoldable pub handle_discover_request : Context → Topic → Request → Run (Context × Response)
  unfolding resolve by_level
  handle_discover_request context topic request = do
    named ← resolve context topic
    by_level named
        (λ object i resource. on_resource_discover env.libc context named.server object i resource)
        (λ object i. on_instance_discover env.libc context named.server object i)
        (λ object. on_object_discover context named.server object)

  unfoldable pub handle_write_attributes_request :
      Context → Topic → Request → Run (Context × Response)
  unfolding resolve by_level put_named_resource put_named_instance put_named_object
  handle_write_attributes_request context topic request =
      let response = record (empty_response code_content) { content_type = 1 } in
      do
        named ← resolve context topic
        by_level named
            (λ object i resource.
              map_run (λ r. put_named_resource object i (context, r, response))
                (on_resource_write_attributes env.libc named.server resource request.payload))
            (λ object i.
              map_run (λ j. put_named_instance object (context, j, response))
                (on_instance_write_attributes env.libc named.server i request.payload))
            (λ object.
              map_run (λ o. put_named_object (context, o, response))
                (on_object_write_attributes env.libc named.server object request.payload))

  unfoldable pub handle_execute_request : Context → Topic → Request → Run (Context × Response)
  unfolding resolve
  handle_execute_request context topic request = do
    named ← resolve context topic
    args ← parse_args env.libc request
    resource ← deref named.resource
    on_resource_execute context named.server topic.object_id topic.instance_id topic.resource_id
        args
