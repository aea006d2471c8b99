-- ===== src/Vcdutil/Rules.antt =====
-- How the look-up idiom keeps an invariant.
use cluster_api_provider_clo.Base.{Option, none, some}
use cluster_api_provider_clo.World.{World}
use cluster_api_provider_clo.World.Types.{GoError, Answer, error_of, ok, err}
use cluster_api_provider_clo.World.Calls.{Call, Reply}
use cluster_api_provider_clo.Flow.{Session, M, perform}
use cluster_api_provider_clo.Flow.Rules.{
  Preserves, Preserves-pure, Preserves-bind, preserves_rules, Preserves-if,
}
use cluster_api_provider_clo.Vcdutil.{ignore_not_found, found_or, find, found_or_create, or_create}

module _ (W : World) {O : Type 0} {P : Session O → Type 0} where
  Preserves-found_or :
      {A : Type 0} (a : Answer A) (e : Option GoError) (handle : GoError → M O (Option A))
      → ((e : GoError) → Preserves P (handle e))
      → Preserves P (found_or W a e handle)
  Preserves-found_or a none handle h = Preserves-pure _
  Preserves-found_or a (some e) handle h = h e

  pub Preserves-find :
      (c : Call) (handle : GoError → M O (Option (Reply c)))
      → Preserves P (perform W c)
      → ((e : GoError) → Preserves P (handle e))
      → Preserves P (find W c handle)
  unfolding find
  Preserves-find c handle h k =
      Preserves-bind _ _ h λ a. Preserves-found_or a (ignore_not_found W (error_of a)) handle k

  pub Preserves-found_or_create :
      {A : Type 0} (a : Answer A) (create : M O A)
      → Preserves P create
      → Preserves P (found_or_create W a create)
  Preserves-found_or_create (ok a) create h = Preserves-pure _
  Preserves-found_or_create (err e) create h =
      Preserves-if (W.contains_not_found e) _ _ (Preserves-bind _ _ h λ a. Preserves-pure _)
        (Preserves-pure _)

pub Preserves-or_create :
    {O A : Type 0} {P : Session O → Type 0} (o : Option A) (create : M O A)
    → Preserves P create
    → Preserves P (or_create o create)
Preserves-or_create none create h = h
Preserves-or_create (some a) create h = Preserves-pure a

pub ruleset vcd_rules =
    (preserves_rules, Preserves-find, Preserves-found_or_create, Preserves-or_create)
