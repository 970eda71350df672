-- ===== src/Cursors/Moves.antt =====
-- What a commit or a reposition may do to a cursor.
use ws_collab.Prelude.{
  ℕ, ◌≤◌, ◌<◌, ◌≡◌, refl, ◌∙◌, ◌⊎◌, inl, inr, Bool, true, false, some, [], ◌∷◌, ◌++◌, arith, ltb,
  if◌then◌else◌, ltb→lt, Bool-cases, last_items, ◌==◌, nat_eq, Text, text_eq,
}
use ws_collab.Errors.{Error, ok, raise}
use ws_collab.Dict
use ws_collab.Dict.{Dict, get-put}
use ws_collab.Json.{Python}
use ws_collab.Ids.{Base64}
use ws_collab.Cursors.{
  Manager, Move, Position, Action, Risk, no_risk, replay, skip, key, get, seq_or_zero,
  history_or_empty, record_move, moved_position, entry_of, save, seq_of, commit, commit_at,
  reposition, reposition_at, by_commit, by_reposition, max_history, saved, moved, entry_json,
}

-- A move sets the cursor of its stream and consumer, and no other.
record_move-get :
    (now : Text) (r : Move) (a : Action) (k : Risk) (n : ℕ) (m : Manager) (j : Text)
    → Dict.get (record_move now r a k n m).1.cursors j ≡ (
        if key r.stream r.consumer == j
        then some (record_move now r a k n m).0
        else Dict.get m.cursors j)
unfolding record_move save
record_move-get now r a k n m j = get-put m.cursors (key r.stream r.consumer) _ j

-- What a successful move leaves: the position is stored, with the token and the time, its history ends in the entry of the
-- move, the other cursors are as they were, the file holds all of them and the audit has the entry.
pub record Moved (now : Text) (r : Move) (a : Action) (k : Risk) (m m' : Manager) (p : Position)
    : Type 0 where
  pub stored : get m' r.stream r.consumer ≡ some p
  pub cursors :
      (j : Text)
      → Dict.get m'.cursors j
        ≡ (if key r.stream r.consumer == j then some p else Dict.get m.cursors j)
  pub entry :
      p.history
      ≡ last_items max_history (
          history_or_empty (get m r.stream r.consumer)
          ++ entry_json (entry_of now r a k p.seq (get m r.stream r.consumer)) ∷ [])
  pub token : p.token ≡ r.token
  pub updated : p.updated_at ≡ now
  pub on_disk : m'.file ≡ some (saved m'.cursors)
  pub audited :
      m'.audit ≡ m.audit ++ moved (entry_of now r a k p.seq (get m r.stream r.consumer)) ∷ []

record_move-Moved :
    (now : Text) (r : Move) (a : Action) (k : Risk) (n : ℕ) (m : Manager)
    → Moved now r a k m (record_move now r a k n m).1 (record_move now r a k n m).0
unfolding record_move get moved_position save
record_move-Moved now r a k n m = record {
  stored =
      get-put m.cursors (key r.stream r.consumer) _ (key r.stream r.consumer)
      ∙ rw ((text_eq.same_iff (key r.stream r.consumer) (key r.stream r.consumer)).1 refl);
  cursors = λ j. get-put m.cursors (key r.stream r.consumer) _ j;
  entry = refl;
  token = refl;
  updated = refl;
  on_disk = refl;
  audited = refl;
}

module _ (py : Python) (b64 : Base64) where
  -- A commit of a token with a number: where the number is at least that of the cursor, the commit
  -- succeeds, and the position, the other cursors, the history, the file and the audit are as a
  -- move leaves them; where it is smaller, the commit is refused.
  pub commit-Moved :
      (now : Text) (r : Move) (m : Manager) (n : ℕ)
      → seq_of py b64 r.token ≡ ok n
      → ((seq_or_zero (get m r.stream r.consumer) ≤ n)
          × ((p : Position) × ((m' : Manager) × ((commit py b64 now r m ≡ ok (p, m'))
                  × ((p.seq ≡ n) × Moved now r by_commit no_risk m m' p)))))
        ⊎ ((n < seq_or_zero (get m r.stream r.consumer))
            × (commit py b64 now r m ≡ raise Error.authorization))
  unfolding commit commit_at
  commit-Moved now r m n h = elim (Bool-cases (ltb n (seq_or_zero (get m r.stream r.consumer)))) [
    | inl back ↦ inr (ground arith, rw (h, back))
    | inr fwd ↦
        let x = record_move now r by_commit no_risk n m in
        inl (
          ground arith,
          (
            x.0,
            (
              x.1,
              (
                rw (h, fwd) refl,
                (
                  unfold record_move moved_position in refl,
                  record_move-Moved now r by_commit no_risk n m,
                ),
              ),
            ),
          ),
        )
  ]

  -- The risk of a move from one number to another that its flags allow.
  abbrev pub IsAllowed : ℕ → ℕ → Bool → Bool → Risk → Type 0
  IsAllowed old new allow_replay allow_skip no_risk = new ≡ old
  IsAllowed old new allow_replay allow_skip replay = (new < old) × (allow_replay ≡ true)
  IsAllowed old new allow_replay allow_skip skip = (old < new) × (allow_skip ≡ true)

  -- A move in a direction that its flag does not allow.
  abbrev pub IsRefused : ℕ → ℕ → Bool → Bool → Type 0
  IsRefused old new allow_replay allow_skip =
      ((new < old) × (allow_replay ≡ false)) ⊎ ((old < new) × (allow_skip ≡ false))

  -- What an allowed reposition comes to.
  pub record IsRepositioned (now : Text) (r : Move) (allow_replay allow_skip : Bool) (m : Manager)
      (n : ℕ) : Type 0 where
    pub risk : Risk
    pub allowed : IsAllowed (seq_or_zero (get m r.stream r.consumer)) n allow_replay allow_skip risk
    pub position : Position
    pub manager : Manager
    pub succeeds : reposition py b64 now r allow_replay allow_skip m ≡ ok (position, manager)
    pub seq : position.seq ≡ n
    pub moves : Moved now r by_reposition risk m manager position

  repositioned :
      (now : Text) (r : Move) (allow_replay allow_skip : Bool) (m : Manager) (n : ℕ) (k : Risk)
      → IsAllowed (seq_or_zero (get m r.stream r.consumer)) n allow_replay allow_skip k
      → reposition py b64 now r allow_replay allow_skip m
        ≡ ok (record_move now r by_reposition k n m)
      → IsRepositioned now r allow_replay allow_skip m n
  unfolding record_move moved_position
  repositioned now r allow_replay allow_skip m n k h p = record {
    risk = k;
    allowed = h;
    position = (record_move now r by_reposition k n m).0;
    manager = (record_move now r by_reposition k n m).1;
    succeeds = p;
    seq = refl;
    moves = record_move-Moved now r by_reposition k n m;
  }

  -- A reposition to a token with a number is refused exactly where it goes back without
  -- `allow_replay` or forward without `allow_skip`. Else it succeeds, and leaves what a move leaves
  -- that records the risk of its direction in the history and the audit.
  pub reposition-Moved :
      (now : Text) (r : Move) (allow_replay allow_skip : Bool) (m : Manager) (n : ℕ)
      → seq_of py b64 r.token ≡ ok n
      → IsRepositioned now r allow_replay allow_skip m n
        ⊎ (IsRefused (seq_or_zero (get m r.stream r.consumer)) n allow_replay allow_skip
            × (reposition py b64 now r allow_replay allow_skip m ≡ raise Error.authorization))
  unfolding reposition reposition_at
  reposition-Moved now r allow_replay allow_skip m n h =
      let old : ℕ = seq_or_zero (get m r.stream r.consumer) in
      elim (Bool-cases (ltb n old)) [
        | inl back ↦ elim (Bool-cases allow_replay) [
          | inl p ↦ inl (
              repositioned now r allow_replay allow_skip m n replay (ltb→lt n old back, p)
                (rw (h, back, p) refl))
          | inr p ↦ inr (inl (ltb→lt n old back, p), rw (h, back, p) refl)
        ]
        | inr not_back ↦ elim (Bool-cases (ltb old n)) [
          | inl fwd ↦ elim (Bool-cases allow_skip) [
            | inl p ↦ inl (
                repositioned now r allow_replay allow_skip m n skip (ltb→lt old n fwd, p)
                  (rw (h, not_back, fwd, p) refl))
            | inr p ↦ inr (inr (ltb→lt old n fwd, p), rw (h, not_back, fwd, p) refl)
          ]
          | inr not_fwd ↦ inl (
              repositioned now r allow_replay allow_skip m n no_risk (ground arith)
                (rw (h, not_back, not_fwd) refl))
        ]
      ]
