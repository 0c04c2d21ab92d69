-- ===== src/CliAuth/Rows.antt =====
-- Updates and deletions of the rows of src/cli_auth.rs.
use yunova.Base.{
  ℕ, suc, ◌≡◌, refl, true, false, Bool, none, some, List, [], ◌∷◌, String, arith, ◌==◌,
}
use yunova.Base.Text.{same}
use yunova.Schema.{Tables, DeviceCode}
use yunova.CliAuth.{
  find_hash, find_code, count_where, set_where, delete_where, update_codes, put_codes,
}

pub same_refl : (cs : List ℕ) → same cs cs ≡ true
unfolding same
same_refl [] = refl
same_refl (c ∷ cs) = ground (arith, same_refl cs)

module _ (p : DeviceCode → Bool) where
  pub find_code-delete_where :
      (code : List ℕ) (rs : List DeviceCode)
      → find_code code rs ≡ none
      → find_code code (delete_where p rs) ≡ none
  unfolding find_code delete_where
  find_code-delete_where code [] h = refl
  find_code-delete_where code (r ∷ rs) h = ground (arith, find_code-delete_where code rs)

  pub find_hash-delete_where :
      (hash : String) (rs : List DeviceCode)
      → find_hash hash rs ≡ none
      → find_hash hash (delete_where p rs) ≡ none
  unfolding find_hash delete_where
  find_hash-delete_where hash [] h = refl
  find_hash-delete_where hash (r ∷ rs) h = ground (arith, find_hash-delete_where hash rs)

pub update_first :
    (p : DeviceCode → Bool) (f : DeviceCode → DeviceCode) (r : DeviceCode) (rs : List DeviceCode)
    (t : Tables)
    → t.device_codes ≡ r ∷ rs
    → p r ≡ true
    → update_codes p f t ≡ some (suc (count_where p rs), put_codes (f r ∷ set_where p f rs) t)
unfolding update_codes count_where set_where
update_first p f r rs t e h = rw (e, h) refl

pub positive : (n : ℕ) → (suc n == 0) ≡ false
positive n = ground arith

module _ (p q : DeviceCode → Bool) where
  pub count_where-set_where :
      (f : DeviceCode → DeviceCode)
      → ((r : DeviceCode) → q r ≡ true → p r ≡ false → p (f r) ≡ false)
      → (rs : List DeviceCode) → count_where p rs ≡ 0
      → count_where p (set_where q f rs) ≡ 0
  unfolding count_where set_where
  count_where-set_where f keeps [] h = refl
  count_where-set_where f keeps (r ∷ rs) h =
      ground (arith, keeps r, count_where-set_where f keeps rs)

  pub count_where-delete_where :
      (rs : List DeviceCode) → count_where p rs ≡ 0 → count_where p (delete_where q rs) ≡ 0
  unfolding count_where delete_where
  count_where-delete_where [] h = refl
  count_where-delete_where (r ∷ rs) h = ground (arith, count_where-delete_where rs)
