-- ===== src/Diff/Rounds.antt =====
-- The inner loop of `Parse` in internal/diff/diff.go offers a line to at most two states.
use sdlc_orchestrator.Common.{◌≡◌, refl, ◌⊎◌, inl, inr, true, false, [], ◌∷◌, arith, Bytes}
use sdlc_orchestrator.Diff.{GoText}
use sdlc_orchestrator.Diff.Parser.{
  Parser, ParseState, st_header, st_hunk, st_binary_payload, Outcome, combined_diff, next, failed,
  fed, consumed, fed_pair, step_hunk, step_header, step_in, step,
}

step_hunk_declined :
    (line : Bytes) (p : Parser)
    → (step_hunk line p).1 ≡ false
    → (step_hunk line p).0.state ≡ st_header
unfolding step_hunk
step_hunk_declined [] p h = cc
step_hunk_declined (c ∷ text) p h = ground arith

outcome_cases : (o : Outcome) → (consumed o ≡ failed) ⊎ ((q : Parser) × (consumed o ≡ fed q true))
unfolding consumed
outcome_cases combined_diff = inl refl
outcome_cases (next q) = inr (q, refl)

-- The header state never hands a line back.
header_consumes :
    (go : GoText) (line : Bytes) (s : ParseState) (p : Parser)
    → s ≡ st_header
    → (step_in go s line p ≡ failed) ⊎ ((q : Parser) × (step_in go s line p ≡ fed q true))
unfolding step_in
header_consumes go line st_header p e = outcome_cases (step_header go line p)
header_consumes go line st_hunk p e = cc
header_consumes go line st_binary_payload p e = cc

consumed_not_declined : (o : Outcome) {q : Parser} → consumed o ≡ fed q false → ⊥
unfolding consumed
consumed_not_declined combined_diff h = cc
consumed_not_declined (next p) h = cc

declined_state :
    (go : GoText) (line : Bytes) (s : ParseState) (p : Parser) {q : Parser}
    → step_in go s line p ≡ fed q false
    → q.state ≡ st_header
unfolding step_in fed_pair
declined_state go line st_header p h = absurd (consumed_not_declined (step_header go line p) h)
declined_state go line st_hunk p h = ground (arith, step_hunk_declined line p)
declined_state go line st_binary_payload p h = ground arith

-- A line that a state hands back is taken by the state it is offered to next, unless it announces a
-- combined diff: two passes are enough for every line, and no line is dropped between them.
pub step_twice :
    (go : GoText) (line : Bytes) (p : Parser) {q : Parser}
    → step go line p ≡ fed q false
    → (step go line q ≡ failed) ⊎ ((r : Parser) × (step go line q ≡ fed r true))
unfolding step
step_twice go line p {q} h = header_consumes go line q.state q (declined_state go line p.state p h)
