-- ===== src/Object/Places.antt =====
-- lwm2m_object.c: a resource written through its pointer is what the pointer then finds.
use lynx_lwm2m.Base.{◌≡◌, refl, true, Option, none, some, List, [], ◌∷◌, ℤ, Run, ok}
use lynx_lwm2m.Items.{Items, lfind}
use lynx_lwm2m.Items.Store.{lfind-store_eq}
use lynx_lwm2m.Model.{Resource, Instance, Object, Server, Context, TaskPtr}
use lynx_lwm2m.Object.{put_object, put_instance, put_resource}
use lynx_lwm2m.Object.Merge.{
  Place, find_instance, find_place, put_place, notify_observer, notify_instance_loop,
  notify_instance_object, resource_level_loop, merge_values, after_callback, merge_resource,
}
use lynx_lwm2m.Libc.{Libc}

-- The place is where the identifiers lead, and its parts have them.
pub record IsPlace (context : Context) (o i r : ℤ) (place : Place) : Type 0 where
  pub object_found : lfind context.object_tree o ≡ some place.object
  pub instance_found : lfind place.object.instances i ≡ some place.instance'
  pub resource_found : lfind place.instance'.resources r ≡ some place.resource
  pub object_id : place.object.id ≡ o
  pub instance_id : place.instance'.id ≡ i
  pub resource_id : place.resource.id ≡ r

pub find_place-IsPlace :
    (context : Context) (o i r : ℤ) (place : Place)
    → IsPlace context o i r place
    → find_place context o i r ≡ ok place
unfolding find_place find_instance
find_place-IsPlace context o i r place v =
    rw (v.object_found, v.instance_found, v.resource_found) refl

-- The place after a write of the resource.
abbrev pub placed : Place → Resource → Place
placed place resource =
    let instance' = put_resource place.instance' resource in
    record {
      object = put_instance place.object instance';
      instance' = instance';
      resource = resource;
    }

pub put_place-IsPlace :
    (context : Context) (o i r : ℤ) (place : Place) (resource : Resource)
    → IsPlace context o i r place
    → resource.id ≡ r
    → IsPlace (put_place context place resource) o i r (placed place resource)
unfolding put_place put_object put_instance put_resource
put_place-IsPlace context o i r place resource v e =
    let instance' = put_resource place.instance' resource in
    let object = put_instance place.object instance' in
    record {
      object_found =
          lfind-store_eq context.object_tree o object.id place.object object v.object_id
            v.object_found;
      instance_found =
          lfind-store_eq place.object.instances i instance'.id place.instance' instance'
            v.instance_id v.instance_found;
      resource_found =
          lfind-store_eq place.instance'.resources r resource.id place.resource resource e
            v.resource_found;
      object_id = v.object_id;
      instance_id = v.instance_id;
      resource_id = e;
    }

-- Nobody observes the resource, its instance or its object.
pub record IsUnobserved (place : Place) : Type 0 where
  pub by_object : place.object.observers.first ≡ []
  pub by_instance : place.instance'.observers.first ≡ []
  pub by_resource : place.resource.observers.first ≡ []

notify_observer-none :
    (now : ℤ) (context : Context) (server : Server) (observers : Items TaskPtr)
    (pmin : Run (Option ℤ)) (arg : Option ℤ)
    → observers.first ≡ []
    → notify_observer now context server observers pmin arg ≡ ok context
unfolding notify_observer lfind
notify_observer-none now context server observers pmin arg h = rw h refl

pub resource_level_loop-none :
    (now : ℤ) (context : Context) (place : Place) (servers : List (ℤ × Server))
    → place.resource.observers.first ≡ []
    → resource_level_loop now context place servers ≡ ok context
unfolding resource_level_loop
resource_level_loop-none now context place [] h = refl
resource_level_loop-none now context place ((key, server) ∷ servers) h =
    rw (notify_observer-none now context server place.resource.observers _ none h)
      (resource_level_loop-none now context place servers h)

notify_instance_loop-none :
    (now : ℤ) (context : Context) (object : Object) (i : Instance) (servers : List (ℤ × Server))
    → object.observers.first ≡ []
    → i.observers.first ≡ []
    → notify_instance_loop now context object i servers ≡ ok context
unfolding notify_instance_loop
notify_instance_loop-none now context object i [] h g = refl
notify_instance_loop-none now context object i ((key, server) ∷ servers) h g =
    rw
      (
        notify_observer-none now context server object.observers _ (some i.id) h,
        notify_observer-none now context server i.observers _ none g,
      )
      (notify_instance_loop-none now context object i servers h g)

pub notify_instance_object-none :
    (now : ℤ) (context : Context) (object : Object) (i : Instance) (servers : Items Server)
    → object.observers.first ≡ []
    → i.observers.first ≡ []
    → notify_instance_object now context object i servers ≡ ok context
unfolding notify_instance_object
notify_instance_object-none now context object i servers h g =
    notify_instance_loop-none now context object i servers.first h g

-- A merge by its steps.
pub merge_resource-run :
    (c : Libc) (now : ℤ) (context after : Context) (o i r : ℤ) (new : Resource)
    (place place' : Place) (merged resource : Resource) (servers : Items Server)
    → find_place context o i r ≡ ok place
    → merge_values c context place.resource new true ≡ ok (merged, servers)
    → after_callback c true merged.write_callback merged ≡ resource
    → find_place (put_place context place resource) o i r ≡ ok place'
    → resource_level_loop now (put_place context place resource) place' servers.first ≡ ok after
    → merge_resource c now context o i r new true true ≡ ok (after, servers)
unfolding merge_resource
merge_resource-run c now context after o i r new place place' merged resource servers found merges
      called found' told =
    rw (found, merges, called, found', told) refl
