-- ===== src/Fracdex/Insert.antt =====
-- A list of rows in key order, and a row that is put between two neighbours of it.
use project_management.Fracdex.Between.{
  Verdict, room, malformed, disordered, IsBound, Ascends, between-Verdict,
}
use project_management.Fracdex.Order.{Lt}
use project_management.Fracdex.Split.{IsKey}
use project_management.Fracdex.{between, Result}
use project_management.Prelude.Outcome.{ok}
use project_management.Prelude.{Bytes, List, [], ◌∷◌, ◌++◌, ◌≡◌, ◌≢◌, ◌⊎◌, inl, inr, refl}

abbrev pub SortsAfter : Bytes → Bytes → Type 0
SortsAfter lo k = (lo ≡ []) ⊎ Lt lo k

-- The rows' keys, in list order: each is a key and sorts strictly after the one before it.
abbrev pub IsOrdered : Bytes → List Bytes → Type 0
IsOrdered lo [] = Unit {0}
IsOrdered lo (k ∷ ks) = IsKey k × SortsAfter lo k × IsOrdered k ks

-- The neighbours, empty where there is none.
abbrev pub last_key : Bytes → List Bytes → Bytes
last_key lo [] = lo
last_key lo (k ∷ ks) = last_key k ks

abbrev pub head_key : List Bytes → Bytes
head_key [] = []
head_key (k ∷ ks) = k

last_key-IsBound :
    (xs : List Bytes) (lo : Bytes) → IsBound lo → IsOrdered lo xs → IsBound (last_key lo xs)
last_key-IsBound [] lo b o = b
last_key-IsBound (k ∷ xs) lo b (g, s, o) = last_key-IsBound xs k (inr g) o

IsOrdered-split :
    (xs ys : List Bytes) (lo : Bytes)
    → IsOrdered lo (xs ++ ys)
    → IsOrdered lo xs × IsOrdered (last_key lo xs) ys
IsOrdered-split [] ys lo o = (tt, o)
IsOrdered-split (k ∷ xs) ys lo (g, s, o) = let r = IsOrdered-split xs ys k o in ((g, s, r.0), r.1)

IsOrdered-join :
    (xs ys : List Bytes) (lo : Bytes)
    → IsOrdered lo xs
    → IsOrdered (last_key lo xs) ys
    → IsOrdered lo (xs ++ ys)
IsOrdered-join [] ys lo o p = p
IsOrdered-join (k ∷ xs) ys lo (g, s, o) p = (g, s, IsOrdered-join xs ys k o p)

head_facts :
    (ys : List Bytes) (lo : Bytes)
    → IsOrdered lo ys
    → IsBound (head_key ys) × Ascends lo (head_key ys)
head_facts [] lo o = (inl refl, inr (inl refl))
head_facts (k ∷ ys) lo (g, inl e, o) = (inr g, inl e)
head_facts (k ∷ ys) lo (g, inr lt, o) = (inr g, inr (inr lt))

IsKey-nonempty : (k : Bytes) → IsKey k → k ≢ []
IsKey-nonempty k ([], f, c) e = c.integer_part
IsKey-nonempty k (h ∷ i, f, c) e = cc (c.joined, e)

place :
    (ys : List Bytes) (lo k : Bytes)
    → IsOrdered lo ys
    → IsKey k
    → SortsAfter lo k
    → (head_key ys ≡ []) ⊎ Lt k (head_key ys)
    → IsOrdered lo (k ∷ ys)
place [] lo k o g s h = (g, s, tt)
place (y ∷ ys) lo k (gy, sy, o) g s (inl e) = absurd (IsKey-nonempty y gy e)
place (y ∷ ys) lo k (gy, sy, o) g s (inr lt) = (g, s, (gy, inr lt, o))

insert-Verdict :
    (lo : Bytes) (ys : List Bytes) (r : Result Bytes)
    → IsBound lo
    → IsOrdered lo ys
    → Verdict lo (head_key ys) r
    → (k : Bytes) × (r ≡ ok k) × IsOrdered lo (k ∷ ys)
insert-Verdict lo ys r b o (room p q a k e g s) = (k, e, place ys lo k o g s.0 s.1)
insert-Verdict lo ys r b o (malformed bad e) = absurd (bad (b, (head_facts ys lo o).0))
insert-Verdict lo ys r b o (disordered p q bad e) = absurd (bad (head_facts ys lo o).1)

-- Wherever a row is put into an ordered list, `Between` of its two neighbours (none at an end of the
-- list) returns a key, and the list with that one key added is ordered again. No other key changes.
pub insert-IsOrdered :
    (xs ys : List Bytes)
    → IsOrdered [] (xs ++ ys)
    → (k : Bytes) × (between (last_key [] xs) (head_key ys) ≡ ok k) × IsOrdered [] (xs ++ k ∷ ys)
insert-IsOrdered xs ys o =
    let (before, behind) = IsOrdered-split xs ys [] o in
    let (k, runs, placed) =
      insert-Verdict (last_key [] xs) ys _ (last_key-IsBound xs [] (inl refl) before) behind
        (between-Verdict (last_key [] xs) (head_key ys)) in
    (k, runs, IsOrdered-join xs (k ∷ ys) [] before placed)
