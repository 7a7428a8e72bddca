-- ===== src/Json/Entries.antt =====
-- What `get` finds after `put`.
use home_server.Common.{◌≡◌, Bool-cases, inl, inr, String, str_eq, eq_refl, eq_iff, false, some}
use home_server.Json.{Value, Fields, end, field, find, get, get_or, put}

find-put : (k : String) (v : Value) (fs : Fields) → find k (put k v fs) ≡ some v
unfolding put
find-put k v end = rw (eq_refl k)
find-put k v (field j w fs) = elim (Bool-cases (str_eq j k)) [
  | inl e ↦ rw (e, e)
  | inr e ↦ rw (e, e, find-put k v fs)
]

find-put_other :
    (k j : String) (v : Value) (fs : Fields) → str_eq k j ≡ false → find j (put k v fs) ≡ find j fs
unfolding put
find-put_other k j v end h = rw h
find-put_other k j v (field i w fs) h = elim (Bool-cases (str_eq i k)) [
  | inl e ↦ let same : i ≡ k = (eq_iff i k).0 e in rw (e, same, h)
  | inr e ↦ rw (e, find-put_other k j v fs h)
]

pub get-put : (k : String) (v : Value) (fs : Fields) → get k (put k v fs) ≡ v
unfolding get get_or
get-put k v fs = rw (find-put k v fs)

pub get-put_other :
    (k j : String) (v : Value) (fs : Fields) → str_eq k j ≡ false → get j (put k v fs) ≡ get j fs
unfolding get get_or
get-put_other k j v fs h = rw (find-put_other k j v fs h)
