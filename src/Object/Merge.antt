-- ===== src/Object/Merge.antt =====
-- lwm2m_object.c: merging parsed resources into the tree, and notifying the servers of changes.
-- A pointer to a resource of the tree is its place: the identifiers of object, instance, resource.
use lynx_lwm2m.Base.{
  Bool, true, false, not, Option, none, some, List, [], ◌∷◌, if◌then◌else◌, ◌==ℤ◌, ltb_ℤ, ℤ, pos,
  ◌-ℤ◌, is_some, Run, ok, ◌>>=◌, deref,
}
use lynx_lwm2m.Items.{Items, list_new, ladd, lfind, lcontains, store}
use lynx_lwm2m.Model.{Value, Cell, Resource, Instance, Object, Server, Context, Task, TaskPtr}
use lynx_lwm2m.Cell.{set_value, set_null}
use lynx_lwm2m.Libc.{Libc}
use lynx_lwm2m.Scheduler.{execute}
use lynx_lwm2m.Attribute.{get_resource_pmin, get_instance_pmin, get_object_pmin, lookup_full}
use lynx_lwm2m.Reporting.{should_notify}
use lynx_lwm2m.Object.{put_object, put_instance, put_resource}

pub record Place : Type 0 where
  pub object : Object
  pub instance' : Instance
  pub resource : Resource

unfoldable pub find_instance : Context → (object_id instance_id : ℤ) → Run (Object × Instance)
find_instance context object_id instance_id = do
  object ← deref (lfind context.object_tree object_id)
  i ← deref (lfind object.instances instance_id)
  ok (object, i)

unfoldable pub find_place : Context → (object_id instance_id resource_id : ℤ) → Run Place
unfolding find_instance
find_place context object_id instance_id resource_id = do
  (object, i) ← find_instance context object_id instance_id
  resource ← deref (lfind i.resources resource_id)
  ok (record { object = object; instance' = i; resource = resource })

-- The tree with this resource at the place.
unfoldable pub put_place : Context → Place → Resource → Context
unfolding put_object put_instance put_resource
put_place context place resource =
    put_object context (put_instance place.object (put_resource place.instance' resource))

-- `task == NULL` is the caller's test.
unfoldable pub fulfill_pmin : ℤ → ℤ → Task → Bool
fulfill_pmin now pmin task =
    if task.last_waking_time ==ℤ pos 0 then true else ltb_ℤ pmin (now -ℤ task.last_waking_time)

abbrev pmin_passes : ℤ → Option ℤ → Task → Bool
pmin_passes now none task = true
pmin_passes now (some pmin) task = fulfill_pmin now pmin task

-- The task that observes for the server is executed, if there is one and `pmin` allows it.
unfoldable pub notify_observer :
    ℤ → Context → Server → Items TaskPtr → Run (Option ℤ) → Option ℤ → Run Context
unfolding fulfill_pmin
notify_observer now context server observers pmin arg =
    notify_found (lfind observers server.short_server_id)
  where
    notify_found : Option TaskPtr → Run Context
    notify_found none = ok context
    notify_found (some p) = do
      task ← deref (context.scheduler.heap p)
      bound ← pmin
      if pmin_passes now bound task
          then (do
            scheduler ← execute now context.scheduler p arg
            ok (record context { scheduler = scheduler }))
          else ok context

unfoldable pub notify_instance_loop :
    ℤ → Context → Object → Instance → List (ℤ × Server) → Run Context
unfolding notify_observer
notify_instance_loop now context object i [] = ok context
notify_instance_loop now context object i ((key, server) ∷ next) = do
  context ←
      notify_observer now context server object.observers
        (get_object_pmin context server object lookup_full) (some i.id)
  context ←
      notify_observer now context server i.observers
        (get_instance_pmin context server object i lookup_full) none
  notify_instance_loop now context object i next

unfoldable pub notify_instance_object : ℤ → Context → Object → Instance → Items Server → Run Context
unfolding notify_instance_loop
notify_instance_object now context object i servers =
    notify_instance_loop now context object i servers.first

unfoldable pub resource_level_loop : ℤ → Context → Place → List (ℤ × Server) → Run Context
unfolding notify_observer
resource_level_loop now context place [] = ok context
resource_level_loop now context place ((key, server) ∷ next) = do
  context ←
      notify_observer now context server place.resource.observers
        (get_resource_pmin context server place.object place.instance' place.resource lookup_full)
        none
  resource_level_loop now context place next

-- The loop of `set_value` notifies at each of the three levels in turn.
value_levels_loop : ℤ → Context → Place → List (ℤ × Server) → Run Context
unfolding notify_observer
value_levels_loop now context place [] = ok context
value_levels_loop now context place ((key, server) ∷ next) = do
  context ←
      notify_observer now context server place.resource.observers
        (get_resource_pmin context server place.object place.instance' place.resource lookup_full)
        none
  context ←
      notify_observer now context server place.object.observers
        (get_object_pmin context server place.object lookup_full) (some (place.instance'.id))
  context ←
      notify_observer now context server place.instance'.observers
        (get_instance_pmin context server place.object place.instance' lookup_full) none
  value_levels_loop now context place next

-- Servers that are not in the list yet.
unfoldable pub add_servers : List (ℤ × Server) → Items Server → Items Server
add_servers [] servers_to_notify = servers_to_notify
add_servers ((key, server) ∷ next) servers_to_notify = add_servers next (
    if lcontains servers_to_notify server.short_server_id
    then servers_to_notify
    else ladd servers_to_notify server.short_server_id server)

module _ (c : Libc) where
  -- `set_value`, which notifies; a NULL `value` is `none`.
  unfoldable pub set_value_notify :
      ℤ → Context → (object_id instance_id resource_id : ℤ) → Option Value → ℤ → Run Context
  unfolding find_place put_place value_levels_loop
  set_value_notify now context object_id instance_id resource_id value length = do
    place ← find_place context object_id instance_id resource_id
    (cell, old_value) ← set_value (place.resource.cell) value length
    let resource = record (place.resource) { cell = cell }
    let context = put_place context place resource
    servers ← should_notify c context resource old_value value
    place ← find_place context object_id instance_id resource_id
    value_levels_loop now context place servers.first

  -- The servers that `should_notify` gives, added; nothing where `notify` is false.
  add_wanted :
      Bool → Context → Resource → Option Value → Option Value → Items Server → Run (Items Server)
  unfolding add_servers
  add_wanted false context resource old_value new_value servers = ok servers
  add_wanted true context resource old_value new_value servers = do
    wanted ← should_notify c context resource old_value new_value
    ok (add_servers wanted.first servers)

  -- One round for a resource instance that is new, or that exists.
  unfoldable pub merge_one :
      Context
      → Resource
      → Resource
      → Bool
      → Items Cell
      → ℤ
      → Cell
      → Items Server
      → Option Cell
      → Run (Items Cell × Items Server)
  unfolding add_wanted add_servers
  merge_one context old new notify olds key new_instance servers none = ok (
    ladd olds new_instance.id new_instance,
    if notify then add_servers context.servers.first servers else servers,
  )
  merge_one context old new notify olds key new_instance servers (some old_instance) =
      if not (is_some new.value)
      then ok (
        store olds key (set_null old_instance).0,
        if notify then add_servers context.servers.first servers else servers,
      )
      else (do
        (cell, old_value) ← set_value old_instance new_instance.value new_instance.length
        servers ← add_wanted notify context old old_value new_instance.value servers
        ok (store olds key cell, servers))

  unfoldable pub merge_instances :
      Context
      → Resource
      → Resource
      → Bool
      → List (ℤ × Cell)
      → Items Cell
      → Items Server
      → Run (Items Cell × Items Server)
  unfolding merge_one
  merge_instances context old new notify [] olds servers = ok (olds, servers)
  merge_instances context old new notify ((key, new_instance) ∷ next) olds servers = do
    (olds, servers) ←
        merge_one context old new notify olds key new_instance servers (lfind olds key)
    merge_instances context old new notify next olds servers

  merge_single : Context → Resource → Resource → Bool → Run (Resource × Items Server)
  unfolding add_wanted
  merge_single context old new notify = do
    (cell, old_value) ← set_value (old.cell) new.value new.length
    let resource = record old { cell = cell }
    servers ← add_wanted notify context resource old_value new.value list_new
    ok (resource, servers)

  -- The values of a resource after the merge, and the servers to notify.
  unfoldable pub merge_values : Context → Resource → Resource → Bool → Run (Resource × Items Server)
  unfolding merge_instances merge_single
  merge_values context old new notify =
      if old.multiple
      then (do
        olds ← deref old.instances
        news ← deref new.instances
        (olds, servers) ← merge_instances context old new notify news.first olds list_new
        ok (record old { instances = some olds }, servers))
      else merge_single context old new notify

  abbrev pub after_callback : Bool → Option (Cell → Cell) → Resource → Resource
  after_callback true (some write_callback) resource = record resource {
    cell = write_callback (resource.cell);
  }
  after_callback _ _ resource = resource

  -- The list is empty where the source returns NULL because `notify` is false.
  unfoldable pub merge_resource :
      ℤ
      → Context
      → (object_id instance_id resource_id : ℤ) → Resource
      → (call_callback notify : Bool) → Run (Context × Items Server)
  unfolding find_place put_place merge_values resource_level_loop
  merge_resource now context object_id instance_id resource_id new call_callback notify = do
    place ← find_place context object_id instance_id resource_id
    (resource, servers_to_notify) ← merge_values context place.resource new notify
    let resource = after_callback call_callback resource.write_callback resource
    let context = put_place context place resource
    place ← find_place context object_id instance_id resource_id
    context ← resource_level_loop now context place servers_to_notify.first
    ok (context, servers_to_notify)

  unfoldable pub merge_resources_loop :
      ℤ
      → Context
      → (object_id instance_id : ℤ) → List (ℤ × Resource)
      → (call_callback notify : Bool) → Items Server
      → Run (Context × Items Server)
  unfolding merge_resource add_servers
  merge_resources_loop now context object_id instance_id [] call_callback notify servers =
      ok (context, servers)
  merge_resources_loop now context object_id instance_id ((key, new) ∷ next) call_callback notify
        servers =
      do
        (context, found) ←
            merge_resource now context object_id instance_id key new call_callback notify
        merge_resources_loop now context object_id instance_id next call_callback notify
            (add_servers found.first servers)

  unfoldable pub merge_resources :
      ℤ
      → Context
      → (object_id instance_id : ℤ) → Items Resource
      → (call_callback notify : Bool) → Run Context
  unfolding merge_resources_loop find_instance
  merge_resources now context object_id instance_id news call_callback notify = do
    (context, servers_to_notify) ←
        merge_resources_loop now context object_id instance_id news.first call_callback notify
          list_new
    (object, i) ← find_instance context object_id instance_id
    notify_instance_object now context object i servers_to_notify
