-- ===== src/ClientCache/Keys.antt =====
-- The key of the client cache: a hash of three texts written one after the other.
use Prim.Native.Nat.{bit_xor}
use cluster_api_provider_clo.Base.{ℕ, ◌≡◌, ◌++◌, List, ◌∙◌, ◌∷◌, ap, sym, [], refl, ◌*◌, ◌%◌, ◌^◌}
use cluster_api_provider_clo.ClientCache.{write, cache_key, Credentials, new32}

pub write-append : (hash : ℕ) (xs ys : List ℕ) → write hash (xs ++ ys) ≡ write (write hash xs) ys
unfolding write
write-append hash [] ys = refl
write-append hash (x ∷ xs) ys = write-append (bit_xor (hash * 16777619 % 2 ^ 32) x) xs ys

cache_key_lem :
    (c : Credentials) → cache_key c ≡ write new32 (c.endpoint ++ c.api_token ++ c.organization)
unfolding cache_key
cache_key_lem c = simp write-append

-- The key does not see where one text ends and the next begins: credentials whose three texts
-- join to the same bytes have one key.
pub cache_key_of_joined :
    (c d : Credentials)
    → c.endpoint ++ c.api_token ++ c.organization ≡ d.endpoint ++ d.api_token ++ d.organization
    → cache_key c ≡ cache_key d
cache_key_of_joined c d e = cache_key_lem c ∙ ap (write new32) e ∙ sym (cache_key_lem d)
