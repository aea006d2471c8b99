-- ===== src/Vcdutil.antt =====
-- util/vcdutil/vcdutil.go, and the idiom of the controllers around it.
pub mod Rules
use cluster_api_provider_clo.Base.{Bool, false, Option, none, some, if◌then◌else◌}
use cluster_api_provider_clo.World.{World}
use cluster_api_provider_clo.World.Types.{GoError, Answer, error_of, value_of, ok, err}
use cluster_api_provider_clo.World.Calls.{Call, Reply}
use cluster_api_provider_clo.Flow.{M, pure, ◌>>=◌, perform}

module _ (W : World) where
  -- `govcd.ContainsNotFound`, which is false for a nil error.
  abbrev pub contains_not_found : Option GoError → Bool
  contains_not_found none = false
  contains_not_found (some e) = W.contains_not_found e

  abbrev pub ignore_not_found : Option GoError → Option GoError
  ignore_not_found e = if contains_not_found e then none else e

  abbrev pub found_or :
      {O A : Type 0} → Answer A → Option GoError → (GoError → M O (Option A)) → M O (Option A)
  found_or a none handle = pure (value_of a)
  found_or a (some e) handle = handle e

  -- `x, err := get(); if vcdutil.IgnoreNotFound(err) != nil { handle }`: afterwards the value is
  -- nil exactly if the error says not found.
  unfoldable pub find :
      {O : Type 0} (c : Call) → (GoError → M O (Option (Reply c))) → M O (Option (Reply c))
  find c handle = do a ← perform W c; found_or a (ignore_not_found (error_of a)) handle

  -- `if govcd.ContainsNotFound(err) { create }`: another error is passed over, with a nil value.
  abbrev pub found_or_create : {O A : Type 0} → Answer A → M O A → M O (Option A)
  found_or_create (ok a) create = pure (some a)
  found_or_create (err e) create =
      if W.contains_not_found e then (do a ← create; pure (some a)) else pure none

-- The same after other errors have been handled.
abbrev pub or_create : {O A : Type 0} → Option A → M O A → M O A
or_create (some a) create = pure a
or_create none create = create
