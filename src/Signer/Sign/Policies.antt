-- ===== src/Signer/Sign/Policies.antt =====
-- src/x402-signer.ts, `setSignatureMap`: the order of the policies in the signature map.
use vellar_sdk.Prelude.{
  ℕ, ◌+◌, String, true, false, List, [], ◌∷◌, ◌≡◌, refl, inl, inr, Bool-cases, ◌==◌, string_eq,
  nat_eq, if◌then◌else◌, arith,
}
use vellar_sdk.Signer.Sign.{bytes_le, Keyed, insert_policy, sort_policies}

-- Each policy's bytes come before the next one's.
abbrev pub IsOrdered : List Keyed → Type 0
IsOrdered [] = Unit
IsOrdered (p ∷ []) = Unit
IsOrdered (p ∷ q ∷ ps) = (bytes_le p.0 q.0 ≡ true) × IsOrdered (q ∷ ps)

-- How often a policy is in the list.
abbrev pub count : String → List Keyed → ℕ
count p [] = 0
count p (q ∷ qs) = (if q.1 == p then 1 else 0) + count p qs

bytes_le_total : (as' bs : List ℕ) → bytes_le as' bs ≡ false → bytes_le bs as' ≡ true
bytes_le_total [] bs h = cc
bytes_le_total (a ∷ as') [] h = refl
bytes_le_total (a ∷ as') (b ∷ bs) h = ground (arith, bytes_le_total as' bs)

cons-insert-IsOrdered :
    (q p : Keyed) (ps : List Keyed)
    → IsOrdered (q ∷ ps)
    → bytes_le q.0 p.0 ≡ true
    → IsOrdered (insert_policy p ps)
    → IsOrdered (q ∷ insert_policy p ps)
cons-insert-IsOrdered q p [] h le k = (le, tt)
cons-insert-IsOrdered q p (r ∷ ps) (first, h) le k = elim (Bool-cases (bytes_le p.0 r.0)) [
  | inl before ↦ rw (before, insert_policy) (le, rw (before, insert_policy) at k)
  | inr after ↦ rw (after, insert_policy) (first, rw (after, insert_policy) at k)
]

tail-IsOrdered : (q : Keyed) (ps : List Keyed) → IsOrdered (q ∷ ps) → IsOrdered ps
tail-IsOrdered q [] h = tt
tail-IsOrdered q (r ∷ ps) h = h.1

insert-IsOrdered : (p : Keyed) (ps : List Keyed) → IsOrdered ps → IsOrdered (insert_policy p ps)
insert-IsOrdered p [] h = tt
insert-IsOrdered p (q ∷ qs) h = elim (Bool-cases (bytes_le p.0 q.0)) [
  | inl le ↦ rw (le, insert_policy) (le, h)
  | inr more ↦
      rw (more, insert_policy)
        (cons-insert-IsOrdered q p qs h (bytes_le_total p.0 q.0 more)
          (insert-IsOrdered p qs (tail-IsOrdered q qs h)))
]

count-insert :
    (p : Keyed) (ps : List Keyed) (q : String) → count q (insert_policy p ps) ≡ count q (p ∷ ps)
count-insert p [] q = refl
count-insert p (r ∷ ps) q = elim (Bool-cases (bytes_le p.0 r.0)) [
  | inl le ↦ rw (le, insert_policy)
  | inr more ↦ rw (more, insert_policy) (omega (arith, count-insert p ps q))
]

-- The policies of a signature map are in the order of their bytes, which is the order of the map's
-- keys, and they are the configured ones, each as often as it was configured.
pub sort_policies-IsOrdered :
    (ps : List Keyed)
    → IsOrdered (sort_policies ps) × ((q : String) → count q (sort_policies ps) ≡ count q ps)
unfolding sort_policies
sort_policies-IsOrdered [] = (tt, λ q. refl)
sort_policies-IsOrdered (p ∷ ps) =
    let (ordered, counted) = sort_policies-IsOrdered ps in
    (
      insert-IsOrdered p (sort_policies ps) ordered,
      λ q. omega (arith, count-insert p (sort_policies ps) q, counted q),
    )
