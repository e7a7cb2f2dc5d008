-- ===== src/Db/Statement/Owned.antt =====
-- Each prepared statement has one owner.
use deltafeedback.Prelude.{
  ℕ, ◌+◌, ◌≤◌, ◌≡◌, ◌≢◌, refl, sym, ap, subst, ◌∙◌, inl, inr, List, [], ◌∷◌, Option, none, some,
  Bytes, ◌==◌, Bool-cases, Option-cases, arith,
}
use deltafeedback.Db.Statement.{
  occurrences, Value, Usable, Sqlite, Statement, emptied, sqlite_ok, prepare, destroy, bind_value,
  step, reset,
}
use deltafeedback.Db.Statement.Variables.{
  find_variable, store_variable, Heap, construct, destroy_variable, move_construct, move_assign,
  Does, Runs,
}
use deltafeedback.Db.Statement.Owners.{
  holds, owners, owners-store_new, owners-store, owners-erase, find_other, fresh_occurrences,
}

-- Every statement that lives has one owner, and nothing else is owned.
abbrev pub IsOwned : {M : Type 0} → Sqlite M → Heap M → Type 0
IsOwned lib h =
    (p : ℕ)
    → (owners p h.variables ≡ occurrences p (lib.live h.lib)) × (occurrences p (lib.live h.lib) ≤ 1)

module _ {M : Type 0} (lib : Sqlite M) where
  -- What a variable holds may be passed to a call.
  pub owned-Usable :
      (h : Heap M) (v : ℕ) (s : Statement)
      → IsOwned lib h
      → find_variable v h.variables ≡ some s
      → Usable s.stmt (lib.live h.lib)
  owned-Usable h v s owned there = elim (Option-cases s.stmt) [
    | inl e ↦ inl e
    | inr (p, e) ↦ inr (p, e, once p e)
  ]
    where
      once : (p : ℕ) → s.stmt ≡ some p → occurrences p (lib.live h.lib) ≡ 1
      once p e =
          let one : holds p s.stmt ≡ 1 = rw e (ground arith) in
          omega (arith, one, owners-erase p v s h.variables there, (owned p).0, (owned p).1)

  occurrences-destroy :
      (s : Statement) (m : M)
      → Usable s.stmt (lib.live m)
      → (p : ℕ)
      → occurrences p (lib.live (destroy lib s m)) + holds p s.stmt ≡ occurrences p (lib.live m)
  unfolding destroy
  occurrences-destroy s m (inl e) p = rw e (omega arith)
  occurrences-destroy s m (inr (q, e, once)) p = rw e (lib.finalize_one q m once p)

  same_live :
      (h : Heap M) (m : M)
      → lib.live m ≡ lib.live h.lib
      → IsOwned lib h
      → IsOwned lib (record h { lib = m })
  same_live h m e owned p = rw e (owned p)

  -- A statement that is prepared is one more, and a new one.
  prepare_v2-occurrences :
      (db : Option ℕ) (sql : Bytes) (m : M) (p : ℕ)
      → let ((code, stmt), after) = lib.prepare_v2 db sql m in
        (occurrences p (lib.live after) ≡ occurrences p (lib.live m) + holds p stmt)
        × (occurrences p (lib.live m) ≤ 1 → occurrences p (lib.live after) ≤ 1)
  prepare_v2-occurrences db sql m p = elim (Option-cases (lib.prepare_v2 db sql m).0.1) [
    | inl e ↦ rw (e, lib.prepare_none db sql m e) (omega arith, λ most. most)
    | inr (q, e) ↦
        let (live, new) = lib.prepare_some db sql m q e in
        rw (e, live) (omega arith, λ most. fresh_occurrences p q (lib.live m) new most)
  ]

  construct-IsOwned :
      (v : ℕ) (db : Option ℕ) (sql : Bytes) (h : Heap M)
      → find_variable v h.variables ≡ none
      → IsOwned lib h
      → IsOwned lib (construct lib v db sql h)
  unfolding construct prepare
  construct-IsOwned v db sql h free owned p =
      let x = lib.prepare_v2 db sql h.lib in
      let made = prepare_v2-occurrences db sql h.lib p in
      let (one, most) = owned p in
      elim (Bool-cases (x.0.0 == sqlite_ok)) [
        | inl good ↦ rw good (
          omega (
            arith,
            made.0,
            one,
            owners-store_new p v (record { db = db; stmt = x.0.1 }) h.variables free,
          ),
          made.1 most,
        )
        | inr bad ↦
            let none_there = lib.prepare_failed db sql h.lib (λ e. ground arith) in
            rw (bad, lib.prepare_none db sql h.lib none_there) (one, most)
      ]

  move_construct-IsOwned :
      (v w : ℕ) (o : Statement) (h : Heap M)
      → find_variable v h.variables ≡ none
      → find_variable w h.variables ≡ some o
      → IsOwned lib h
      → IsOwned lib (move_construct lib v w o h)
  unfolding move_construct
  move_construct-IsOwned v w o h free there owned p =
      let left = store_variable w emptied h.variables in
      let ne : w ≢ v = λ e. ground arith in
      let still = find_other w v emptied h.variables ne ∙ free in
      (
        omega (
          arith,
          owners-store_new p v o left still,
          owners-store p w emptied o h.variables there,
          (owned p).0,
        ),
        (owned p).1,
      )

  move_assign-IsOwned :
      (v w : ℕ) (s o : Statement) (h : Heap M)
      → find_variable v h.variables ≡ some s
      → find_variable w h.variables ≡ some o
      → IsOwned lib h
      → IsOwned lib (move_assign lib v w s o h)
  unfolding move_assign
  move_assign-IsOwned v w s o h at_v at_w owned = elim (Bool-cases (v == w)) [
    | inl same ↦ rw same owned
    | inr other ↦ rw other (λ p. (
      omega (
        arith,
        owners-store p v o s h.variables at_v,
        owners-store p w emptied o (store_variable v o h.variables)
            (find_other v w o h.variables (λ e. ground arith) ∙ at_w),
        occurrences-destroy s h.lib (owned-Usable h v s owned at_v) p,
        (owned p).0,
      ),
      omega (arith, occurrences-destroy s h.lib (owned-Usable h v s owned at_v) p, (owned p).1),
    ))
  ]

  bind_value_lib :
      (i : ℕ) (x : Value) (s : Statement) (m : M)
      → (bind_value lib i x s m).1 ≡ (lib.bind s.stmt i x m).1
  unfolding bind_value
  bind_value_lib i x s m = ground arith

  step_lib : (s : Statement) (m : M) → (step lib s m).1 ≡ (lib.step s.stmt m).1
  unfolding step
  step_lib s m = ground arith

  Does-IsOwned : (h k : Heap M) → Does lib h k → IsOwned lib h → IsOwned lib k
  unfolding destroy_variable bind_value step reset
  Does-IsOwned h _ (Does.constructs v db sql free) owned = construct-IsOwned v db sql h free owned
  Does-IsOwned h _ (Does.destroys v s there) owned = λ p.
      let freed = occurrences-destroy s h.lib (owned-Usable h v s owned there) p in
      (
        omega (arith, freed, owners-erase p v s h.variables there, (owned p).0),
        omega (arith, freed, (owned p).1),
      )
  Does-IsOwned h _ (Does.moves v w o free there) owned =
      move_construct-IsOwned v w o h free there owned
  Does-IsOwned h _ (Does.assigns v w s o at_v at_w) owned =
      move_assign-IsOwned v w s o h at_v at_w owned
  Does-IsOwned h _ (Does.binds v s i x there) owned =
      let usable = owned-Usable h v s owned there in
      same_live h (bind_value lib i x s h.lib).1
        (ap lib.live (bind_value_lib i x s h.lib) ∙ lib.bind_keeps s.stmt i x h.lib usable) owned
  Does-IsOwned h _ (Does.steps v s there) owned =
      let usable = owned-Usable h v s owned there in
      same_live h (step lib s h.lib).1
        (ap lib.live (step_lib s h.lib) ∙ lib.step_keeps s.stmt h.lib usable) owned
  Does-IsOwned h _ (Does.resets v s there) owned =
      let usable = owned-Usable h v s owned there in
      let again = subst (Usable s.stmt) (sym (lib.reset_keeps s.stmt h.lib usable)) usable in
      same_live h (reset lib s h.lib)
        (lib.clear_keeps s.stmt (lib.reset s.stmt h.lib) again
          ∙ lib.reset_keeps s.stmt h.lib usable)
        owned

  -- However a program makes, moves, assigns, binds, steps and destroys its statements, also where a
  -- constructor throws and where a variable is assigned to itself: each statement that is prepared and
  -- not finalized has exactly one owner, and a variable owns no other.
  pub Runs-IsOwned : (h : Heap M) → Runs lib h → IsOwned lib h
  Runs-IsOwned _ (Runs.begins m fresh) = λ p. rw fresh (refl, omega arith)
  Runs-IsOwned k (Runs.then {h} before made) = Does-IsOwned h k made (Runs-IsOwned h before)

  nothing_counted : (live : List ℕ) → ((p : ℕ) → occurrences p live ≡ 0) → live ≡ []
  nothing_counted [] h = refl
  nothing_counted (q ∷ live) h = ground (arith, h q)

  -- When a program's variables are gone, every statement it prepared is finalized.
  pub Runs-none_left : (h : Heap M) → Runs lib h → h.variables ≡ [] → lib.live h.lib ≡ []
  Runs-none_left h runs gone =
      nothing_counted (lib.live h.lib) (λ p. sym ((Runs-IsOwned h runs p).0) ∙ ap (owners p) gone)
