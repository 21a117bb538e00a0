-- ===== src/Datastore/Deletions.antt =====
-- The statements that delete rows and those on links keep the tables sound, datastore/usermanager.go.
use identity_vault.Common.{
  ltb, ℕ, true, false, not, ◌&&◌, ◌≡◌, List, [], ◌∷◌, arith, ◌==◌, filter, All, ◌<◌, Bool-cases,
  inl, inr,
}
use identity_vault.Datastore.{
  max_int, Row, Tables, Account, any, delete_row, delete_links, link_account,
}
use identity_vault.Datastore.Soundness.{
  All-both, All-snoc, All-kept, any-none, Pairs-kept, Refers, Apart, IsSound,
}
use identity_vault.Datastore.Statements.{Keeps}

-- A user with a link is there.
linked-there :
    (id : ℕ) (users : List Row) (accounts : List Account) (ls : List (ℕ × ℕ))
    → All (Refers users accounts) ls
    → any (λ l. l.0 == id) ls ≡ true
    → any (λ v. v.id == id) users ≡ true
linked-there id users accounts [] h e = ground arith
linked-there id users accounts ((u, a) ∷ ls) ((h, g), t) e = elim (Bool-cases (u == id)) [
  | inl f ↦ ground (arith, h, f)
  | inr f ↦ linked-there id users accounts ls t (ground (arith, e, f))
]

any-others :
    (id k : ℕ) (users : List Row)
    → (k == id) ≡ false
    → any (λ v. v.id == k) users ≡ true
    → any (λ v. v.id == k) (filter (λ v. not (v.id == id)) users) ≡ true
any-others id k [] h e = e
any-others id k (v ∷ users) h e = ground (arith, any-others id k users h, e, h)

unlinked :
    (id : ℕ) (t : Tables)
    → IsSound t
    → (any (λ v. v.id == id) t.users && any (λ l. l.0 == id) t.links) ≡ false
    → any (λ l. l.0 == id) t.links ≡ false
unlinked id t s e = elim (Bool-cases (any (λ l. l.0 == id) t.links)) [
  | inr f ↦ f
  | inl f ↦ ground (arith, e, f, linked-there id t.users t.accounts t.links s.referred f)
]

deleted-IsSound :
    (id : ℕ) (t : Tables)
    → IsSound t
    → any (λ l. l.0 == id) t.links ≡ false
    → IsSound (record t { users = filter (λ v. not (v.id == id)) t.users })
deleted-IsSound id t s e =
    let rest = filter (λ v. not (v.id == id)) t.users in
    record {
      drawn = All-kept (λ v. v.id < t.next_id) (λ v. not (v.id == id)) t.users s.drawn;
      named = Pairs-kept Apart (λ v. not (v.id == id)) t.users s.named;
      referred =
          All-both (Refers t.users t.accounts) (λ l. (l.0 == id) ≡ false) (Refers rest t.accounts)
            t.links (λ l r f. (any-others id l.0 t.users f r.0, r.1)) s.referred
            (any-none (λ l. l.0 == id) t.links e);
    }

pub delete_row-Keeps : (id : ℕ) (t : Tables) → IsSound t → Keeps t (delete_row id t).1
unfolding delete_row
delete_row-Keeps id t s = elim (Bool-cases (ltb max_int id)) [
  | inl m ↦ rw m (record { sound = s; onward = omega arith })
  | inr m ↦ elim (Bool-cases (any (λ v. v.id == id) t.users && any (λ l. l.0 == id) t.links)) [
    | inl a ↦ rw (m, a) (record { sound = s; onward = omega arith })
    | inr a ↦
        rw (m, a)
          (record { sound = deleted-IsSound id t s (unlinked id t s a); onward = omega arith })
  ]
]

pub delete_links-Keeps : (id : ℕ) (t : Tables) → IsSound t → Keeps t (delete_links id t).1
unfolding delete_links
delete_links-Keeps id t s = record {
  sound = record {
    drawn = s.drawn;
    named = s.named;
    referred = All-kept (Refers t.users t.accounts) (λ l. not (l.0 == id)) t.links s.referred;
  };
  onward = omega arith;
}

pub link_account-Keeps :
    (user account : ℕ) (t : Tables) → IsSound t → Keeps t (link_account user account t).1
unfolding link_account
link_account-Keeps user account t s = elim (Bool-cases (any (λ v. v.id == user) t.users)) [
  | inr u ↦ rw u (record { sound = s; onward = omega arith })
  | inl u ↦ elim (Bool-cases (any (λ a. a.id == account) t.accounts)) [
    | inr a ↦ rw (u, a) (record { sound = s; onward = omega arith })
    | inl a ↦
        rw (u, a)
          (record {
            sound = record {
              drawn = s.drawn;
              named = s.named;
              referred =
                  All-snoc (Refers t.users t.accounts) t.links (user, account) s.referred (u, a);
            };
            onward = omega arith;
          })
  ]
]
