-- ===== src/Users/Emails.antt =====
-- The e-mail addresses of the platform's users: users.service.ts.
use salepoint_backend.Prelude.{
  ℕ, ◌≡◌, ◌≢◌, refl, subst, inl, inr, false, none, List, [], ◌∷◌, arith, ◌==◌, Bool-cases,
  Option-cases, find_first,
}
use salepoint_backend.Prelude.Table as Table
use salepoint_backend.Prelude.Table.{IsKeyed, IsBelow, save, find_by_id-IsBelow}
use salepoint_backend.Accounts.{User, Accounts, user_key, user_of}
use salepoint_backend.Users.{
  CreateUserDto, new_user, create, any_with_email, UpdateUserDto, update, assign, clashes,
  find_by_id,
}

-- No two users have one address, deleted users included.
abbrev pub HasUniqueEmails : List User → Type 0
HasUniqueEmails [] = Unit
HasUniqueEmails (u ∷ us) =
    (find_first (λ (v : User). v.email == u.email) us ≡ none) × HasUniqueEmails us

-- Where the addresses were unique, a row that clashes with no other row is saved.
find-save :
    (email : ℕ) (u : User) (us : List User)
    → find_first (λ (v : User). v.email == email) us ≡ none
    → u.email ≢ email
    → find_first (λ (v : User). v.email == email) (save user_key u us) ≡ none
find-save email u [] e other = ground arith
find-save email u (v ∷ us) e other = ground (arith, find-save email u us)

apart-clashes :
    (u : User) (us : List User)
    → Table.find_by_id user_key u.id us ≡ none
    → clashes u us ≡ false
    → find_first (λ (v : User). v.email == u.email) us ≡ none
apart-clashes u [] new free = refl
apart-clashes u (v ∷ us) new free = ground (arith, apart-clashes u us)

save-HasUniqueEmails :
    (u : User) (us : List User)
    → IsKeyed user_key us
    → clashes u us ≡ false
    → HasUniqueEmails us
    → HasUniqueEmails (save user_key u us)
save-HasUniqueEmails u [] keyed free h = (refl, tt)
save-HasUniqueEmails u (v ∷ us) keyed free h = elim (Bool-cases (user_key v == user_key u)) [
  | inl same ↦
      let key : v.id ≡ u.id = ground arith in
      rw same (
        apart-clashes u us (subst (λ k. Table.find_by_id user_key k us ≡ none) key keyed.0)
            (rw same at free),
        h.1,
      )
  | inr other ↦
      let apart : u.email ≢ v.email = λ e. ground (arith, free, e) in
      let rest : clashes u us ≡ false = ground (arith, free) in
      rw other (find-save v.email u us h.0 apart, save-HasUniqueEmails u us keyed.1 rest h.1)
]

free-clashes :
    (u : User) (us : List User)
    → find_first (λ (v : User). v.email == u.email) us ≡ none
    → clashes u us ≡ false
free-clashes u [] e = refl
free-clashes u (v ∷ us) e = ground (arith, free-clashes u us)

-- The registration of a user and the update of one, whatever they answer, keep the addresses of all users unique, those of deleted users included, if the keys of the table are unique.
pub users-HaveUniqueEmails :
    (hash : ℕ → ℕ) (new : CreateUserDto) (i : ℕ) (change : UpdateUserDto) (a : Accounts)
    → IsKeyed user_key a.users
    → HasUniqueEmails a.users
    → HasUniqueEmails (create hash new a).1.users × HasUniqueEmails (update hash i change a).1.users
unfolding create update find_by_id
users-HaveUniqueEmails hash new i change a keyed h = (
  elim (Option-cases (any_with_email new.email a)) [
    | inr (u, taken) ↦ rw taken h
    | inl free ↦ rw free (
        let u : User = new_user new (hash new.password) a.next_id in
        save-HasUniqueEmails u a.users keyed (free-clashes u a.users (unfold new_user in free)) h)
  ],
  elim (Option-cases (user_of i a)) [
    | inl missing ↦ rw missing h
    | inr (u, found) ↦ rw found (elim (Bool-cases (clashes (assign hash change u) a.users)) [
      | inl taken ↦ rw taken h
      | inr free ↦ rw free (save-HasUniqueEmails (assign hash change u) a.users keyed free h)
    ])
  ],
)
