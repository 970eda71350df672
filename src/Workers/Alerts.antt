-- ===== src/Workers/Alerts.antt =====
-- What two monitoring cycles in a row do.
use ws_collab.Prelude.{
  ℕ, ◌≡◌, refl, sym, ap, subst, ◌∙◌, inl, inr, Bool, true, false, Option, none, some, List, [], ◌∷◌,
  ◌++◌, append-nil, arith, Bool-cases, length, All, Text, text_eq,
}
use ws_collab.Dict.{Dict, values}
use ws_collab.Workers.{
  State, Config, WorkerRecord, visit, state_for, maybe_alert, is_state, age, publish, visit_all,
  team_notice, check_team_failure, evaluate, Monitor, all_down, active_records, judged_records,
  Notice,
}

is_state_refl : (s : State) → is_state s s ≡ true
is_state_refl State.healthy = refl
is_state_refl State.warn = refl
is_state_refl State.overdue = refl
is_state_refl State.unresponsive = refl
is_state_refl State.terminated = refl

-- What `_state_for` reads of a record, an alert leaves as it is.
maybe_alert-state_for :
    (c : Config) (now : ℕ) (r : WorkerRecord) (s : State)
    → state_for c now (maybe_alert r s).worker ≡ state_for c now r
unfolding maybe_alert state_for age
maybe_alert-state_for c now r s = ground arith

maybe_alert-last_state :
    (r : WorkerRecord) (s : State) → (maybe_alert r s).worker.last_state ≡ r.last_state
unfolding maybe_alert
maybe_alert-last_state r s = ground arith

abbrev seen : Config → ℕ → WorkerRecord → WorkerRecord
seen c now r = record r { last_state = state_for c now r }

seen-state_for :
    (c : Config) (now : ℕ) (r : WorkerRecord) → state_for c now (seen c now r) ≡ state_for c now r
unfolding state_for age
seen-state_for c now r = refl

-- After a visit, the record's last state is its state.
visit_settled :
    (c : Config) (now : ℕ) (r : WorkerRecord)
    → is_state (state_for c now (visit c now r).worker) (visit c now r).worker.last_state ≡ true
unfolding visit
visit_settled c now r = elim (Bool-cases (is_state (state_for c now r) r.last_state)) [
  | inl p ↦ rw (visit, p) p
  | inr p ↦
      rw (visit, p)
        (ap (λ z. is_state z (maybe_alert (seen c now r) (state_for c now r)).worker.last_state)
            (maybe_alert-state_for c now (seen c now r) (state_for c now r)
              ∙ seen-state_for c now r)
          ∙ ap (is_state (state_for c now r))
              (maybe_alert-last_state (seen c now r) (state_for c now r))
          ∙ is_state_refl (state_for c now r))
]

-- A record is settled when its last state is its state.
abbrev IsSettled : Config → ℕ → Text × WorkerRecord → Type 0
IsSettled c now x = is_state (state_for c now x.1) x.1.last_state ≡ true

visit_all-IsSettled :
    (c : Config) (now : ℕ) (d : Dict Text WorkerRecord) (m : Monitor)
    → m.workers ≡ []
    → All (IsSettled c now) (visit_all c now d m).1.workers
unfolding visit_all
visit_all-IsSettled c now [] m h = rw h tt
visit_all-IsSettled c now ((k, r) ∷ d) m h =
    (visit_settled c now r, visit_all-IsSettled c now d _ h)

-- A cycle over settled records does nothing.
visit_all_settled :
    (c : Config) (now : ℕ) (d : Dict Text WorkerRecord) (m : Monitor)
    → All (IsSettled c now) d
    → visit_all c now d m ≡ ([], record m { workers = d ++ m.workers })
unfolding visit_all visit
visit_all_settled c now [] m h = refl
visit_all_settled c now ((k, r) ∷ d) m h =
    rw (h.0, append-nil m.published, append-nil m.announced)
      (ap (λ z. (z.0, record z.1 { workers = (k, r) ∷ z.1.workers }))
        (visit_all_settled c now d m h.1))

team_notice_known :
    (count : ℕ) (judged : List WorkerRecord) (down : Bool)
    → team_notice count judged down down ≡ none
unfolding team_notice
team_notice_known count [] down = refl
team_notice_known count (r ∷ judged) true = refl
team_notice_known count (r ∷ judged) false = refl

check_again :
    (c : Config) (now : ℕ) (rs : List WorkerRecord) (m : Monitor)
    → check_team_failure c now rs (check_team_failure c now rs m).1
      ≡ ([], (check_team_failure c now rs m).1)
unfolding check_team_failure publish
check_again c now rs m = go (team_notice count judged down m.team_alerted) refl
  where
    count : ℕ
    count = length (active_records rs)

    judged : List WorkerRecord
    judged = judged_records rs

    down : Bool
    down = all_down c now (judged_records rs)

    outcome : Monitor → Option Notice → List Notice × Monitor
    outcome x none = ([], x)
    outcome x (some n) = (n ∷ [], publish n (record x { team_alerted = down }))

    go :
        (o : Option Notice)
        → team_notice count judged down m.team_alerted ≡ o
        → outcome (outcome m o).1 (team_notice count judged down (outcome m o).1.team_alerted)
          ≡ ([], (outcome m o).1)
    go none e = ap (outcome m) e
    go (some n) e = ap (outcome (outcome m (some n)).1) (team_notice_known count judged down)

check-workers :
    (c : Config) (now : ℕ) (rs : List WorkerRecord) (m : Monitor)
    → (check_team_failure c now rs m).1.workers ≡ m.workers
unfolding check_team_failure publish
check-workers c now rs m = ground arith

-- A second monitoring cycle at the same time emits nothing and changes nothing, whatever the first
-- one found.
pub evaluate-evaluate :
    (c : Config) (now : ℕ) (m : Monitor)
    → evaluate c now (evaluate c now m).1 ≡ ([], (evaluate c now m).1)
unfolding evaluate
evaluate-evaluate c now m =
    let v = visit_all c now m.workers (record m { workers = [] }) in
    let m1 = (check_team_failure c now (values v.1.workers) v.1).1 in
    let same = check-workers c now (values v.1.workers) v.1 in
    let settled =
      subst (All (IsSettled c now)) (sym same)
        (visit_all-IsSettled c now m.workers (record m { workers = [] }) refl) in
    let quiet : visit_all c now m1.workers (record m1 { workers = [] }) ≡ ([], m1) =
      visit_all_settled c now m1.workers (record m1 { workers = [] }) settled
      ∙ ap (λ d. ([], record m1 { workers = d })) (append-nil m1.workers) in
    ap
      (λ x. (
        x.0 ++ (check_team_failure c now (values x.1.workers) x.1).0,
        (check_team_failure c now (values x.1.workers) x.1).1,
      ))
      quiet
    ∙ ap (λ d. check_team_failure c now (values d) m1) same
    ∙ check_again c now (values v.1.workers) v.1
