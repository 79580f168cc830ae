-- ===== src/Statement/Released.antt =====
-- After `ReleaseDescriptor` of odbc_impl/ODBCDescriptor.cc no statement points to the descriptor.
use native.Mathlib.Decide.{ℕ_discrete}
use gizmosql_odbc_driver.Prelude.{
  some-injective, ℕ, ◌≤◌, ◌≡◌, ◌≢◌, ◌⊎◌, refl, sym, ap, ◌∙◌, subst, Bool, true, false, some, List,
  [], ◌∷◌, ◌==◌, arith, inl, inr,
}
use gizmosql_odbc_driver.Exceptions.{returns, ◌>>=◌}
use gizmosql_odbc_driver.Descriptor.{Descriptor}
use gizmosql_odbc_driver.Statement.{Statement, Memory, deref, store, store-other}
use gizmosql_odbc_driver.Statement.SetAttributes.{revert_app_descriptor}
use gizmosql_odbc_driver.Statement.Registration.{
  count, registered, registrations, IsRegistered, one_if, current,
}
use gizmosql_odbc_driver.Statement.Release.{Statements, revert_all, release_descriptor}

-- The listed statements exist.
unfoldable pub AreAlive : {R : Type 0} → List ℕ → Statements R → Type 0
AreAlive {R = R} is ss = (i : ℕ) → 1 ≤ count i is → (s : Statement R) × (ss i ≡ some s)

-- What the loop does to the statement of number `i`: reverted if it is listed, else kept.
IsReverted : {R : Type 0} → Bool → List ℕ → ℕ → Statement R → Statement R → Type 0
IsReverted is_apd is i s s' =
    (1 ≤ count i is) × (s' ≡ revert_app_descriptor s is_apd) ⊎ (count i is ≡ 0) × (s' ≡ s)

revert_twice :
    {R : Type 0} (s : Statement R) (is_apd : Bool)
    → revert_app_descriptor (revert_app_descriptor s is_apd) is_apd ≡ revert_app_descriptor s is_apd
unfolding revert_app_descriptor
revert_twice s true = refl
revert_twice s false = refl

pub store-at : {A : Type 0} (i j : ℕ) (v : A) (f : ℕ → A) → j ≡ i → store i v f j ≡ v
store-at i j v f h = ground arith

count-head : (i : ℕ) (is : List ℕ) → 1 ≤ count i (i ∷ is)
unfolding count
count-head i is = ground arith

one_if_self : (x y : ℕ) → x ≡ y → one_if (x == y) ≡ 1
one_if_self x y h = ground arith

module _ {R : Type 0} (is_apd : Bool) where
  AreAlive-tail :
      (i : ℕ) (is : List ℕ) (ss : Statements R) (s : Statement R)
      → AreAlive (i ∷ is) ss
      → AreAlive is (store i (some s) ss)
  unfolding AreAlive count
  AreAlive-tail i is ss s alive j h = elim (ℕ_discrete j i) [
    | yes e ↦ (s, store-at i j (some s) ss e)
    | no apart ↦ let (t, at) = alive j (omega arith) in (t, store-other i j (some s) ss apart ∙ at)
  ]

  reverted_again :
      (is : List ℕ) (j : ℕ) (s x s' : Statement R)
      → x ≡ revert_app_descriptor s is_apd
      → IsReverted is_apd is j x s'
      → s' ≡ revert_app_descriptor s is_apd
  unfolding IsReverted
  reverted_again is j s x s' e (inl (listed, h)) =
      h ∙ ap (λ t. revert_app_descriptor t is_apd) e ∙ revert_twice s is_apd
  reverted_again is j s x s' e (inr (unlisted, h)) = h ∙ e

  IsReverted-tail :
      (i : ℕ) (is : List ℕ) (j : ℕ) (s s' : Statement R)
      → j ≢ i
      → IsReverted is_apd is j s s'
      → IsReverted is_apd (i ∷ is) j s s'
  unfolding IsReverted count
  IsReverted-tail i is j s s' apart (inl (listed, h)) = inl (omega arith, h)
  IsReverted-tail i is j s s' apart (inr (unlisted, h)) = inr (ground arith, h)

  -- The loop succeeds, keeps the set of statements, and reverts those that are listed.
  revert_all-IsReverted :
      (is : List ℕ) (ss : Statements R)
      → AreAlive is ss
      → (ss' : Statements R) × (revert_all is_apd is ss ≡ returns ss')
        × ((i : ℕ) (s' : Statement R)
            → ss' i ≡ some s'
            → (s : Statement R) × (ss i ≡ some s) × IsReverted is_apd is i s s')
        × ((i : ℕ) (s : Statement R) → ss i ≡ some s → (s' : Statement R) × (ss' i ≡ some s'))
  unfolding revert_all IsReverted AreAlive count
  revert_all-IsReverted [] ss alive =
      (ss, refl, λ i s' at. (s', at, inr (refl, refl)), λ i s at. (s, at))
  revert_all-IsReverted (i ∷ is) ss alive =
      let (s, at) = alive i (count-head i is) in
      let t = revert_app_descriptor s is_apd in
      let ss1 = store i (some t) ss in
      let (ss', e, each, kept) = revert_all-IsReverted is ss1 (AreAlive-tail i is ss t alive) in
      (
        ss',
        ap
              (λ o. deref o >>= λ s.
                revert_all is_apd is (store i (some (revert_app_descriptor s is_apd)) ss))
              at
            ∙ e,
        (λ j s' at'.
            let (x, was, r) = each j s' at' in
            elim (ℕ_discrete j i) [
              | yes same ↦
                  let again : x ≡ t = some-injective (sym was ∙ store-at i j (some t) ss same) in
                  (
                    s,
                    ap ss same ∙ at,
                    inl (
                      subst (λ (k : ℕ). 1 ≤ count k (i ∷ is)) (sym same) (count-head i is),
                      reverted_again is j s x s' again r,
                    ),
                  )
              | no apart ↦ (
                x,
                sym (store-other i j (some t) ss apart) ∙ was,
                IsReverted-tail i is j x s' apart r,
              )
            ]),
        (λ j s0 at0. elim (ℕ_discrete j i) [
          | yes same ↦ kept j t (store-at i j (some t) ss same)
          | no apart ↦ kept j s0 (store-other i j (some t) ss apart ∙ at0)
        ]),
      )

-- A statement that is reverted, or that the descriptor at `a` does not list, does not point to it.
leaves :
    {R : Type 0} (is_apd : Bool) (i a : ℕ) (d : Descriptor) (m : Memory) (s s' : Statement R)
    → m.descriptor a ≡ some d
    → a ≢ s.built_in_ard
    → a ≢ s.built_in_apd
    → IsRegistered i is_apd s m
    → IsReverted is_apd (registered d is_apd) i s s'
    → current s' is_apd ≢ a
unfolding IsReverted IsRegistered registrations revert_app_descriptor
leaves true i a d m s s' at ha hb was (inl (listed, h)) =
    λ e. hb (sym e ∙ ap (λ t. t.current_apd) h)
leaves false i a d m s s' at ha hb was (inl (listed, h)) =
    λ e. ha (sym e ∙ ap (λ t. t.current_ard) h)
leaves is_apd i a d m s s' at ha hb was (inr (unlisted, h)) = λ e.
    let counted : count i (registered d is_apd) ≡ one_if (current s is_apd == a) =
      sym (ap (registrations i is_apd) at) ∙ was a ha hb in
    let here : one_if (current s is_apd == a) ≡ 1 =
      one_if_self (current s is_apd) a (ap (λ t. current t is_apd) (sym h) ∙ e) in
    absurd (omega arith)

-- The statement's registrations with the descriptors are exact, and `a` is none of its own.
pub record IsClient {R : Type 0} (i a : ℕ) (m : Memory) (s : Statement R) : Type 0 where
  pub as_apd : IsRegistered i true s m
  pub as_ard : IsRegistered i false s m
  pub not_ard : a ≢ s.built_in_ard
  pub not_apd : a ≢ s.built_in_apd

keeps_other :
    {R : Type 0} (is : List ℕ) (i : ℕ) (s s' : Statement R)
    → IsReverted true is i s s'
    → (s'.current_ard ≡ s.current_ard)
      × (s'.built_in_ard ≡ s.built_in_ard)
      × (s'.built_in_apd ≡ s.built_in_apd)
unfolding IsReverted revert_app_descriptor
keeps_other is i s s' (inl (listed, h)) =
    (ap (λ t. t.current_ard) h, ap (λ t. t.built_in_ard) h, ap (λ t. t.built_in_apd) h)
keeps_other is i s s' (inr (unlisted, h)) =
    (ap (λ t. t.current_ard) h, ap (λ t. t.built_in_ard) h, ap (λ t. t.built_in_apd) h)

keeps_apd :
    {R : Type 0} (is : List ℕ) (i : ℕ) (s s' : Statement R)
    → IsReverted false is i s s'
    → s'.current_apd ≡ s.current_apd
unfolding IsReverted revert_app_descriptor
keeps_apd is i s s' (inl (listed, h)) = ap (λ t. t.current_apd) h
keeps_apd is i s s' (inr (unlisted, h)) = ap (λ t. t.current_apd) h

-- Releasing the descriptor at `a` succeeds and leaves no statement that points to it, if it is none of
-- the descriptors that a statement was built with, the statements' registrations are exact, and the
-- statements that it lists still exist.
pub release_descriptor-free :
    {R : Type 0} (d : Descriptor) (a : ℕ) (m : Memory) (ss : Statements R)
    → m.descriptor a ≡ some d
    → AreAlive d.registered_on_statements_as_apd ss
    → AreAlive d.registered_on_statements_as_ard ss
    → ((i : ℕ) (s : Statement R) → ss i ≡ some s → IsClient i a m s)
    → (ss' : Statements R) × (release_descriptor d ss ≡ returns ss')
      × ((i : ℕ) (s' : Statement R) → ss' i ≡ some s' → (s'.current_apd ≢ a) × (s'.current_ard ≢ a))
unfolding release_descriptor AreAlive IsRegistered
release_descriptor-free d a m ss at live_apd live_ard clients =
    let (ss1, e1, each1, kept1) =
      revert_all-IsReverted true d.registered_on_statements_as_apd ss live_apd in
    let live : AreAlive d.registered_on_statements_as_ard ss1 =
      λ j h. let (t, was) = live_ard j h in kept1 j t was in
    let (ss2, e2, each2, kept2) =
      revert_all-IsReverted false d.registered_on_statements_as_ard ss1 live in
    (
      ss2,
      ap (λ o. o >>= revert_all false d.registered_on_statements_as_ard) e1 ∙ e2,
      λ i s' at'.
          let (s1, at1, r2) = each2 i s' at' in
          let (s, at0, r1) = each1 i s1 at1 in
          let c = clients i s at0 in
          let (same_ard, own_ard, own_apd) =
            keeps_other d.registered_on_statements_as_apd i s s1 r1 in
          (
            (λ e.
                leaves true i a d m s s1 at c.not_ard c.not_apd c.as_apd r1
                  (sym (keeps_apd d.registered_on_statements_as_ard i s1 s' r2) ∙ e)),
            leaves false i a d m s1 s' at (λ e. c.not_ard (e ∙ own_ard))
                (λ e. c.not_apd (e ∙ own_apd))
                (λ b hb hp.
                  c.as_ard b (λ e. hb (e ∙ sym own_ard)) (λ e. hp (e ∙ sym own_apd))
                  ∙ ap (λ k. one_if (k == b)) (sym same_ard))
                r2,
          ),
    )
