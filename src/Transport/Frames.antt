-- ===== src/Transport/Frames.antt =====
-- lwm2m_transport.c: a program logic that follows the list of servers through the operations.
pub mod Notify
pub mod Operations
pub mod Handlers
use lynx_lwm2m.Base.{
  true, false, Bool, ok, fault, blocked, out_of_fuel, Run, ◌>>=◌, ◌≡◌, if◌then◌else◌, ap,
}
use lynx_lwm2m.Items.{Items}
use lynx_lwm2m.Model.{Server, Context}

-- A run returns, if it does, what has the property.
unfoldable pub Returns : {A : Type 0} → (A → Type 0) → Run A → Type 0
Returns P (ok a) = P a
Returns P _ = Unit {0}

pub Returns-ok : {A : Type 0} (P : A → Type 0) (a : A) → P a → Returns P (ok a)
unfolding Returns
Returns-ok P a h = h

pub Returns-fault : {A : Type 0} (P : A → Type 0) → Returns P fault
unfolding Returns
Returns-fault P = tt

pub Returns-bind :
    {A B : Type 0} (P : A → Type 0) (Q : B → Type 0) (m : Run A) (f : A → Run B)
    → Returns P m
    → ((a : A) → P a → Returns Q (f a))
    → Returns Q (m >>= f)
unfolding Returns
Returns-bind P Q (ok a) f h k = k a h
Returns-bind P Q fault f h k = tt
Returns-bind P Q blocked f h k = tt
Returns-bind P Q out_of_fuel f h k = tt

pub Returns-any : {A : Type 0} (m : Run A) → Returns (λ a. Unit {0}) m
unfolding Returns
Returns-any (ok a) = tt
Returns-any fault = tt
Returns-any blocked = tt
Returns-any out_of_fuel = tt

-- A step of which nothing need be known.
pub Returns-after :
    {A B : Type 0} (Q : B → Type 0) (m : Run A) (f : A → Run B)
    → ((a : A) → Returns Q (f a))
    → Returns Q (m >>= f)
Returns-after Q m f k = Returns-bind (λ a. Unit {0}) Q m f (Returns-any m) (λ a h. k a)

pub Returns-if :
    {A : Type 0} (Q : A → Type 0) (b : Bool) (x y : Run A)
    → Returns Q x
    → Returns Q y
    → Returns Q (if b then x else y)
Returns-if Q true x y hx hy = hx
Returns-if Q false x y hx hy = hy

-- The run returns, if it does, a context with these servers.
abbrev pub Keeps : Items Server → Run Context → Type 0
Keeps servers = Returns (λ (context : Context). context.servers ≡ servers)

pub Keeps-bind :
    {B : Type 0} (Q : B → Type 0) (servers : Items Server) (m : Run Context) (f : Context → Run B)
    → Keeps servers m
    → ((context : Context) → context.servers ≡ servers → Returns Q (f context))
    → Returns Q (m >>= f)
Keeps-bind Q servers m f = Returns-bind (λ context. context.servers ≡ servers) Q m f

-- The same for a run that returns a context and more.
abbrev pub KeepsFirst : {A : Type 0} → Items Server → Run (Context × A) → Type 0
KeepsFirst {A = A} servers = Returns (λ (result : Context × A). result.0.servers ≡ servers)

pub KeepsFirst-bind :
    {A B : Type 0} (Q : B → Type 0) (servers : Items Server) (m : Run (Context × A))
    (f : Context × A → Run B)
    → KeepsFirst servers m
    → ((result : Context × A) → result.0.servers ≡ servers → Returns Q (f result))
    → Returns Q (m >>= f)
KeepsFirst-bind Q servers m f = Returns-bind (λ result. result.0.servers ≡ servers) Q m f

-- The same for a run that returns a context and two more.
abbrev pub KeepsTriple : {A B : Type 0} → Items Server → Run (Context × A × B) → Type 0
KeepsTriple {A = A} {B = B} servers =
    Returns (λ (result : Context × A × B). result.0.servers ≡ servers)

pub KeepsTriple-bind :
    {A B C : Type 0} (Q : C → Type 0) (servers : Items Server) (m : Run (Context × A × B))
    (f : Context × A × B → Run C)
    → KeepsTriple servers m
    → ((result : Context × A × B) → result.0.servers ≡ servers → Returns Q (f result))
    → Returns Q (m >>= f)
KeepsTriple-bind Q servers m f = Returns-bind (λ result. result.0.servers ≡ servers) Q m f

pub ruleset returns_rules = (Returns-ok, Returns-fault, Returns-if, Returns-after)

pub Keeps-Keeps :
    (servers : Items Server) (m : Run Context) (f : Context → Run Context)
    → Keeps servers m
    → ((context : Context) → context.servers ≡ servers → Keeps servers (f context))
    → Keeps servers (m >>= f)
Keeps-Keeps servers m f = Keeps-bind _ servers m f

pub Keeps-KeepsFirst :
    {A : Type 0} (servers : Items Server) (m : Run Context) (f : Context → Run (Context × A))
    → Keeps servers m
    → ((context : Context) → context.servers ≡ servers → KeepsFirst servers (f context))
    → KeepsFirst servers (m >>= f)
Keeps-KeepsFirst servers m f = Keeps-bind _ servers m f

pub Keeps-KeepsTriple :
    {A B : Type 0} (servers : Items Server) (m : Run Context) (f : Context → Run (Context × A × B))
    → Keeps servers m
    → ((context : Context) → context.servers ≡ servers → KeepsTriple servers (f context))
    → KeepsTriple servers (m >>= f)
Keeps-KeepsTriple servers m f = Keeps-bind _ servers m f

pub KeepsFirst-KeepsFirst :
    {A B : Type 0} (servers : Items Server) (m : Run (Context × A))
    (f : Context × A → Run (Context × B))
    → KeepsFirst servers m
    → ((result : Context × A) → result.0.servers ≡ servers → KeepsFirst servers (f result))
    → KeepsFirst servers (m >>= f)
KeepsFirst-KeepsFirst servers m f = KeepsFirst-bind _ servers m f

pub KeepsFirst-KeepsTriple :
    {A B C : Type 0} (servers : Items Server) (m : Run (Context × A))
    (f : Context × A → Run (Context × B × C))
    → KeepsFirst servers m
    → ((result : Context × A) → result.0.servers ≡ servers → KeepsTriple servers (f result))
    → KeepsTriple servers (m >>= f)
KeepsFirst-KeepsTriple servers m f = KeepsFirst-bind _ servers m f

pub KeepsTriple-KeepsFirst :
    {A B C : Type 0} (servers : Items Server) (m : Run (Context × A × B))
    (f : Context × A × B → Run (Context × C))
    → KeepsTriple servers m
    → ((result : Context × A × B) → result.0.servers ≡ servers → KeepsFirst servers (f result))
    → KeepsFirst servers (m >>= f)
KeepsTriple-KeepsFirst servers m f = KeepsTriple-bind _ servers m f

pub KeepsTriple-KeepsTriple :
    {A B C D : Type 0} (servers : Items Server) (m : Run (Context × A × B))
    (f : Context × A × B → Run (Context × C × D))
    → KeepsTriple servers m
    → ((result : Context × A × B) → result.0.servers ≡ servers → KeepsTriple servers (f result))
    → KeepsTriple servers (m >>= f)
KeepsTriple-KeepsTriple servers m f = KeepsTriple-bind _ servers m f

pub ruleset keeping_rules = (
  Keeps-Keeps, Keeps-KeepsFirst, Keeps-KeepsTriple, KeepsFirst-KeepsFirst, KeepsFirst-KeepsTriple,
  KeepsTriple-KeepsFirst, KeepsTriple-KeepsTriple, returns_rules,
)

-- What a run that keeps the servers has left, when it has returned.
pub KeepsTriple-elim :
    {A B : Type 0} (servers : Items Server) (m : Run (Context × A × B)) (result : Context × A × B)
    → KeepsTriple servers m
    → m ≡ ok result
    → result.0.servers ≡ servers
unfolding Returns
KeepsTriple-elim servers m result h e = rw e at h
