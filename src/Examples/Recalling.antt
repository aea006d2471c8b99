-- ===== src/Examples/Recalling.antt =====
-- A world that says "not found" of a thing until one of its kind has been made, and grants what is
-- asked for; and both controllers at work in it.
use cluster_api_provider_clo.Base.{
  Bool, Option, List, ℕ, ◌≡◌, ◌==◌, ◌||◌, none, some, true, false, refl, [], ◌∷◌, inl, inr, ap, ◌∙◌,
  sym, arith,
}
use cluster_api_provider_clo.Controllers.{cluster_request, machine_request, serve, Request}
use cluster_api_provider_clo.Controllers.Made.{serve-MadeOnce}
use cluster_api_provider_clo.Examples.Data.{
  world, answer_with, client, not_found, broken, made_cluster, new_machine, worker, owner_cluster,
}
use cluster_api_provider_clo.Examples.Granting.{granting_answer}
use cluster_api_provider_clo.Inventory.{
  Thing, group, pool, service, v_app, vm, sought_by, made_by, Made, MadeOnce, Remembers,
}
use mathlib.Core.Option.{none-ne-some}
use cluster_api_provider_clo.World.{Trace, World}
use cluster_api_provider_clo.World.Calls.{
  Call, Reply, get_tenant_cluster, new_cluster_patch_helper, get_tenant_machine, get_owner_machine,
  get_cluster_from_metadata, new_machine_patch_helper, patch_machine, get_v_app_template,
  add_new_vm,
}
use cluster_api_provider_clo.World.Types.{Answer, ok, err, ObjectKey, GoError}

abbrev kind_of : Option Thing → ℕ
kind_of none = 0
kind_of (some (group vdc name kind)) = 1
kind_of (some (pool gateway name)) = 2
kind_of (some (service gateway name)) = 3
kind_of (some (v_app vdc name)) = 4
kind_of (some (vm parent name)) = 5

abbrev made_kind : ℕ → Trace → Bool
made_kind k [] = false
made_kind k (e ∷ t) = (kind_of (made_by e) == k) || made_kind k t

-- A look-up of a thing, by whether one of its kind has been made.
abbrev recalled : {A : Type 0} → Bool → Answer A → Answer A
recalled true (ok a) = ok a
recalled true (err e) = err broken
recalled false a = err not_found

abbrev recall : {A : Type 0} → Option Thing → Trace → Answer A → Answer A
recall none t a = a
recall (some x) t a = recalled (made_kind (kind_of (some x)) t) a

abbrev either : {A : Type 0} → Answer A → Answer A → Answer A
either (ok a) b = ok a
either (err e) b = b

abbrev granted : Trace → (c : Call) → Answer (Reply c)
granted t (get_tenant_cluster key) = ok made_cluster
granted t (new_cluster_patch_helper x) = ok tt
granted t (get_tenant_machine key) = ok new_machine
granted t (get_owner_machine meta) = ok (some (record worker { name = "control-plane" }))
granted t (get_cluster_from_metadata owner) = ok owner_cluster
granted t (new_machine_patch_helper x) = ok tt
granted t (patch_machine x y owned) = ok tt
granted t (get_v_app_template x name) = ok (record { id = "template-id"; name = "template" })
granted t (add_new_vm x name template section powered) = ok (record { id = "task" })
granted t c = either (granting_answer t c) (answer_with client t c)

abbrev recalling : World
recalling = record world { answer = λ t c. recall (sought_by c) t (granted t c) }

made_kind-Made : (x : Thing) (t : Trace) → Made x t → made_kind (kind_of (some x)) t ≡ true
made_kind-Made x [] m = absurd m
made_kind-Made x (e ∷ t) (kept, inl p) = rw (p) (ground arith)
made_kind-Made x (e ∷ t) (kept, inr m) = rw (made_kind-Made x t m) (ground arith)

abbrev says_not_found : {A : Type 0} → Answer A → Bool
says_not_found (ok a) = false
says_not_found (err e) = recalling.contains_not_found e

recalled-found : {A : Type 0} (a : Answer A) → says_not_found (recalled true a) ≡ false
recalled-found (ok a) = refl
recalled-found (err e) = refl

recall-found :
    {A : Type 0} (o : Option Thing) (t : Trace) (a : Answer A) (x : Thing) (e : GoError)
    → o ≡ some x
    → Made x t
    → recall o t a ≡ err e
    → recalling.contains_not_found e ≡ false
recall-found none t a x e s m h = absurd (none-ne-some x s)
recall-found (some y) t a x e s m h =
    ap says_not_found (sym h)
    ∙ ap (λ b. says_not_found (recalled b a))
        (ap (λ o. made_kind (kind_of o) t) s ∙ made_kind-Made x t m)
    ∙ recalled-found a

remembered : Remembers recalling
remembered = record {
  found = λ t c x e s m h. recall-found (sought_by c) t (granted t c) x e s m h;
}

abbrev key : ObjectKey
key = record { name = "demo"; namespace = "default" }

abbrev requests : List Request
requests =
    cluster_request key ∷ machine_request key ∷ cluster_request key ∷ machine_request key ∷ []

serve-MadeOnce_example : MadeOnce (serve recalling requests [])
serve-MadeOnce_example = serve-MadeOnce recalling remembered requests [] tt
