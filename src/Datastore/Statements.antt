-- ===== src/Datastore/Statements.antt =====
-- Each statement in SQL keeps the tables sound, datastore/usermanager.go.
use identity_vault.Common.{
  ltb, ℕ, suc, String, true, false, not, ◌&&◌, ◌≡◌, sym, ◌∙◌, List, [], ◌∷◌, ◌++◌, arith, ◌==◌,
  if◌then◌else◌, map, str_eq, All, ◌<◌, ◌≤◌, Bool-cases, inl, inr, eq_iff, eq_refl,
}
use identity_vault.Datastore.{
  stored, max_int, Row, Tables, Account, any, fits, insert_user, update_row,
}
use identity_vault.Datastore.Soundness.{
  All-imp, All-both, All-snoc, All-map, any-none, any-snoc, Pairs-snoc, Refers, Apart, IsSound,
}

pub str_eq_comm : (s t : String) → str_eq s t ≡ str_eq t s
str_eq_comm s t = elim (Bool-cases (str_eq s t)) [
  | inl e ↦ e ∙ sym ((eq_iff t s).1 (sym ((eq_iff s t).0 e)))
  | inr e ↦ elim (Bool-cases (str_eq t s)) [
    | inl f ↦ (eq_iff s t).1 (sym ((eq_iff t s).0 f)) ∙ sym f
    | inr f ↦ e ∙ sym f
  ]
]

-- Sound, and with no number given back.
pub record Keeps (t t' : Tables) : Type 0 where
  pub sound : IsSound t'
  pub onward : t.next_id ≤ t'.next_id

-- A draw from the sequence, and the end of a transaction that leaves the rows.
pub later-IsSound :
    (t : Tables) (n : ℕ) → IsSound t → t.next_id ≤ n → IsSound (record t { next_id = n })
later-IsSound t n s le = record {
  drawn =
      All-imp (λ v. v.id < t.next_id) (λ v. v.id < n) t.users (λ v h. omega (arith, h, le)) s.drawn;
  named = s.named;
  referred = s.referred;
}

-- Links stay good while no user goes.
referred-users :
    (us vs : List Row) (accounts : List Account) (ls : List (ℕ × ℕ))
    → ((k : ℕ) → any (λ v. v.id == k) us ≡ true → any (λ v. v.id == k) vs ≡ true)
    → All (Refers us accounts) ls
    → All (Refers vs accounts) ls
referred-users us vs accounts ls f =
    All-imp (Refers us accounts) (Refers vs accounts) ls (λ l h. (f l.0 h.0, h.1))

inserted-IsSound :
    (u : Row) (t : Tables)
    → IsSound t
    → any (λ v. str_eq v.username u.username) t.users ≡ false
    → IsSound
        (record t { next_id = suc t.next_id; users = t.users ++ record u { id = t.next_id } ∷ [] })
inserted-IsSound u t s new =
    let r : Row = record u { id = t.next_id } in
    let names : All (λ v. str_eq v.username u.username ≡ false) t.users =
      any-none (λ v. str_eq v.username u.username) t.users new in
    record {
      drawn =
          All-snoc (λ v. v.id < suc t.next_id) t.users r
            (All-imp (λ v. v.id < t.next_id) (λ v. v.id < suc t.next_id) t.users
              (λ v h. omega (arith, h)) s.drawn)
            (omega arith);
      named =
          Pairs-snoc Apart t.users r s.named
            (All-both (λ v. v.id < t.next_id) (λ v. str_eq v.username u.username ≡ false)
              (λ v. Apart v r) t.users (λ v d n. grind (arith, d, n)) s.drawn names)
            (All-both (λ v. v.id < t.next_id) (λ v. str_eq v.username u.username ≡ false) (Apart r)
              t.users (λ v d n. grind (arith, d, n, str_eq_comm u.username v.username)) s.drawn
              names)
            (grind (arith, eq_refl u.username));
      referred =
          referred-users t.users (t.users ++ r ∷ []) t.accounts t.links
            (λ k. any-snoc (λ v. v.id == k) t.users r) s.referred;
    }

pub insert_user-Keeps : (u : Row) (t : Tables) → IsSound t → Keeps t (insert_user u t).1
unfolding insert_user stored
insert_user-Keeps u t s =
    let drawn : Keeps t (record t { next_id = suc t.next_id }) = record {
      sound = later-IsSound t (suc t.next_id) s (omega arith);
      onward = omega arith;
    } in
    elim (Bool-cases (ltb max_int t.next_id)) [
      | inl m ↦ rw m (record { sound = s; onward = omega arith })
      | inr m ↦ elim (Bool-cases (fits u)) [
        | inr f ↦ rw (m, f) drawn
        | inl f ↦ elim (Bool-cases (any (λ v. str_eq v.username (stored u).username) t.users)) [
          | inl a ↦ rw (m, f, a) drawn
          | inr a ↦
              rw (m, f, a)
                (record { sound = inserted-IsSound (stored u) t s a; onward = omega arith })
        ]
      ]
    ]

-- The row that an update leaves.
abbrev put : Row → Row → Row
put u v = if v.id == u.id then u else v

put-id : (u v : Row) → (put u v).id ≡ v.id
put-id u v = ground arith

any-put :
    (u : Row) (k : ℕ) (us : List Row)
    → any (λ v. v.id == k) us ≡ true
    → any (λ v. v.id == k) (map (put u) us) ≡ true
any-put u k [] h = h
any-put u k (v ∷ us) h = ground (arith, any-put u k us, put-id u v, h)

put-Apart :
    (u v w : Row)
    → Apart v w
    → (str_eq v.username u.username && not (v.id == u.id)) ≡ false
    → (str_eq w.username u.username && not (w.id == u.id)) ≡ false
    → Apart (put u v) (put u w)
put-Apart u v w a h k =
    grind (arith, a, h, k, eq_refl u.username, str_eq_comm u.username w.username)

updated-IsSound :
    (u : Row) (t : Tables)
    → IsSound t
    → any (λ v. str_eq v.username u.username && not (v.id == u.id)) t.users ≡ false
    → IsSound (record t { users = map (put u) t.users })
updated-IsSound u t s new =
    let names = any-none (λ v. str_eq v.username u.username && not (v.id == u.id)) t.users new in
    let free : Row → Type 0 = λ v. (str_eq v.username u.username && not (v.id == u.id)) ≡ false in
    record {
      drawn =
          All-map (λ v. v.id < t.next_id) (put u) t.users
            (All-imp (λ v. v.id < t.next_id) (λ v. (put u v).id < t.next_id) t.users
              (λ v h. ground (arith, h)) s.drawn);
      named =
          All-map (λ v. All (Apart v) (map (put u) t.users)) (put u) t.users
            (All-both (λ v. All (Apart v) t.users) free
              (λ v. All (Apart (put u v)) (map (put u) t.users)) t.users
              (λ v a f. All-map (Apart (put u v)) (put u) t.users (
                All-both (Apart v) free (λ w. Apart (put u v) (put u w)) t.users
                  (λ w b g. put-Apart u v w b f g) a names))
              s.named names);
      referred =
          referred-users t.users (map (put u) t.users) t.accounts t.links (λ k. any-put u k t.users)
            s.referred;
    }

pub update_row-Keeps : (u : Row) (t : Tables) → IsSound t → Keeps t (update_row u t).1
unfolding update_row stored
update_row-Keeps u t s =
    let same : Keeps t t = record { sound = s; onward = omega arith } in
    elim (Bool-cases (ltb max_int u.id)) [
      | inl m ↦ rw m same
      | inr m ↦ elim (Bool-cases (any (λ v. v.id == u.id) t.users)) [
        | inr a ↦ rw (m, a) same
        | inl a ↦ elim (Bool-cases (fits u)) [
          | inr f ↦ rw (m, a, f) same
          | inl f ↦
              elim (Bool-cases
                (any (λ v. str_eq v.username (stored u).username && not (v.id == u.id)) t.users)) [
                  | inl b ↦ rw (m, a, f, b) same
                  | inr b ↦
                      rw (m, a, f, b)
                        (record { sound = updated-IsSound (stored u) t s b; onward = omega arith })
                ]
        ]
      ]
    ]
