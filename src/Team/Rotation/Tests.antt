-- ===== src/Team/Rotation/Tests.antt =====
-- Runs and instances for src/openclaw_ecc_orchestrator/team/rotation.py.
use openclaw_ecc_orchestrato.Prelude.{
  length, ℕ, ◌+◌, ◌%◌, String, ◌≡◌, refl, inl, inr, Option, none, some, List, [], ◌∷◌, arith,
}
use openclaw_ecc_orchestrato.Prelude.Dict.{get, put}
use openclaw_ecc_orchestrato.Team.Rotation.{
  Player, RotationState, Filters, by_runner, turns_of, judged, choose_player,
}
use openclaw_ecc_orchestrato.Team.Rotation.Choosing.{
  Fit, InShare, choose_player-Fit, choose_player-turn,
}

abbrev player : String → Option ℕ → Player
player name dollars = record { runner = name; model = []; dollars = dollars }

abbrev panel : List String
panel = "claude" ∷ "codex" ∷ "gemini" ∷ []

abbrev pool : List Player
pool = player "gemini" (some 9) ∷ player "claude" none ∷ player "codex" (some 3) ∷ []

abbrev filters : Filters
filters = record {
  exclude = "claude" ∷ [];
  pack_tokens = 100;
  max_pack = some (("codex", 200) ∷ []);
  cost_cap = some 9;
  share_cap = none;
  require_kind = none;
  kinds = [];
}

abbrev at_last : RotationState
at_last = record { cursors = ("reviewer", 2) ∷ []; turns = ("reviewer", ("codex", 1) ∷ []) ∷ [] }

abbrev capped : Filters
capped = record filters { exclude = []; share_cap = some (1, 2) }

chosen_next :
    (choose_player "reviewer" panel pool filters at_last).0 ≡ some (player "gemini" (some 9))
unfolding choose_player get put
chosen_next = refl

skips_excluded :
    (choose_player "reviewer" panel pool filters (record at_last { cursors = [] })).0
    ≡ some (player "codex" (some 3))
unfolding choose_player get put
skips_excluded = refl

share_passes_over :
    (choose_player "reviewer" panel pool capped (record {
      cursors = ("reviewer", 1) ∷ [];
      turns = ("reviewer", ("codex", 1) ∷ ("claude", 1) ∷ []) ∷ [];
    })).0
    ≡ some (player "gemini" (some 9))
unfolding choose_player get put
share_passes_over = refl

choose_player-Fit_example : Fit panel pool filters (player "gemini" (some 9))
choose_player-Fit_example =
    choose_player-Fit "reviewer" panel pool filters at_last (player "gemini" (some 9)) chosen_next

cursor_at_last : get "reviewer" at_last.cursors ≡ some 2
unfolding get
cursor_at_last = refl

abbrev half : Filters
half = record filters { share_cap = some (1, 2) }

gemini_passes : judged half "gemini" (by_runner "gemini" pool) ≡ inl (player "gemini" (some 9))
unfolding get
gemini_passes = refl

gemini_share : InShare (turns_of "reviewer" at_last) half (player "gemini" (some 9))
unfolding get
gemini_share = inr (1, 2, refl, omega arith)

choose_player-turn_example :
    ((choose_player "reviewer" panel pool half at_last).0 ≡ some (player "gemini" (some 9)))
    × (get "reviewer" (choose_player "reviewer" panel pool half at_last).1.cursors
        ≡ some ((2 + 1) % length panel))
choose_player-turn_example =
    choose_player-turn "reviewer" panel pool half at_last 2 "gemini" [] (player "gemini" (some 9))
      gemini_share cursor_at_last (omega arith) refl refl refl gemini_passes
