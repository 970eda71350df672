-- ===== src/Examples/Moves.antt =====
-- Each property of the cursors and of the lifecycle at a concrete state.
use ws_collab.Prelude.{
  ℕ, ◌≤◌, ◌<◌, ◌≡◌, refl, ap, ◌∙◌, ◌⊎◌, true, false, none, some, [], ◌∷◌, nat_eq, Text, codes,
  text_eq,
}
use ws_collab.Examples.Codec.{python, python-IsJsonLines}
use ws_collab.Examples.Tokens64.{base64, base64-IsBase64}
use ws_collab.Ids.{encode_cursor, cursor_payload}
use ws_collab.Ids.Cursor.{decode_cursor-encode_cursor}
use ws_collab.Json.{num, get_field, int_of}
use ws_collab.Errors.{ok, Error, raise}
use ws_collab.Cursors
use ws_collab.Cursors.Moves.{commit-Moved, reposition-Moved, Moved, IsRepositioned, IsRefused}
use ws_collab.Cursors.Restart.{IsKept, open_manager-cursors, record_move-IsKept}
use ws_collab.Cursors.{
  Manager, Move, seq_of, seq_field, open_manager, record_move, saved, get, seq_or_zero, commit,
  reposition, Position, no_risk, by_commit,
}
use ws_collab.Lifecycle.{Controller, Action, callback}
use ws_collab.Lifecycle.Once.{requests-first, requests}

abbrev token : Text
token = encode_cursor python base64 (cursor_payload (codes "chat") (num 5) 40 0)

token-seq : seq_of python base64 token ≡ ok 5
unfolding seq_of seq_field
token-seq =
    ap (seq_field python base64) (
      decode_cursor-encode_cursor python base64 (cursor_payload (codes "chat") (num 5) 40 0)
        python-IsJsonLines base64-IsBase64)
    ∙ unfold cursor_payload get_field int_of in refl

abbrev move : Move
move = record {
  stream = codes "chat";
  consumer = codes "w1";
  token = token;
  reason = codes "r";
  operator = codes "o";
}

-- The table with one cursor, at 3.
abbrev fresh : Manager
fresh = record { cursors = []; file = some (saved []); audit = [] }

fresh-IsKept : IsKept fresh
fresh-IsKept = record { placed = tt; distinct = tt; on_disk = refl }

abbrev at_three : Manager
at_three = (record_move (codes "t") move by_commit no_risk 3 fresh).1

record_move-IsKept_example : IsKept at_three
record_move-IsKept_example =
    record_move-IsKept (codes "t") move by_commit no_risk 3 fresh fresh-IsKept

at_three-IsKept : IsKept at_three
at_three-IsKept = record_move-IsKept (codes "t") move by_commit no_risk 3 fresh fresh-IsKept

open_manager-cursors_example :
    open_manager python (codes "u") at_three.file
    ≡ ok (record { cursors = at_three.cursors; file = at_three.file; audit = [] })
open_manager-cursors_example =
    open_manager-cursors python (codes "u") at_three python-IsJsonLines at_three-IsKept

commit-Moved_example :
    ((seq_or_zero (Cursors.get at_three (codes "chat") (codes "w1")) ≤ 5)
      × ((p : Position) × ((m' : Manager) × ((commit python base64 (codes "u") move at_three
                ≡ ok (p, m'))
              × ((p.seq ≡ 5) × Moved (codes "u") move by_commit no_risk at_three m' p)))))
    ⊎ ((5 < seq_or_zero (Cursors.get at_three (codes "chat") (codes "w1")))
        × (commit python base64 (codes "u") move at_three ≡ raise Error.authorization))
commit-Moved_example = commit-Moved python base64 (codes "u") move at_three 5 token-seq

reposition-Moved_example :
    IsRepositioned python base64 (codes "u") move false true at_three 5
    ⊎ (IsRefused python base64
          (seq_or_zero (Cursors.get at_three (codes "chat") (codes "w1")))
          5
          false
          true
        × (reposition python base64 (codes "u") move false true at_three
            ≡ raise Error.authorization))
reposition-Moved_example =
    reposition-Moved python base64 (codes "u") move false true at_three 5 token-seq

abbrev controller : Controller ℕ
controller = record { on_shutdown = some 1; on_restart = some 2; pending = none; called = [] }

requests-first_example :
    (requests controller (Action.restart ∷ Action.shutdown ∷ Action.restart ∷ [])).called ≡ 2 ∷ []
requests-first_example =
    requests-first controller Action.restart (Action.shutdown ∷ Action.restart ∷ []) 2 refl
      (unfold callback in refl)
