-- ===== src/HashMap.antt =====
-- libalca/hashmap.c is a vendored copy of tidwall/hashmap.c. Its calls are an interface here: a map
-- from keys (what the callers' comparison functions compare) to the rest of the stored item.
use alca.Base.{◌≡◌, ◌≢◌, Option, none, some}

-- `hashmap_new`, `hashmap_get`, `hashmap_set` and `hashmap_delete`, with the laws that hashmap.h
-- documents: get returns the item set last under an equal key, and NULL where there is none.
pub record HashMap (K : Type 0) (V : Type 0) (M : Type 0) : Type 0 where
  pub new : M
  pub get : M → K → Option V
  pub put : M → K → V → M
  pub delete : M → K → M
  pub get-new : (k : K) → get new k ≡ none
  pub get-put_same : (m : M) (k : K) (v : V) → get (put m k v) k ≡ some v
  pub get-put_other : (m : M) (k j : K) (v : V) → k ≢ j → get (put m k v) j ≡ get m j
  pub get-delete_same : (m : M) (k : K) → get (delete m k) k ≡ none
  pub get-delete_other : (m : M) (k j : K) → k ≢ j → get (delete m k) j ≡ get m j
