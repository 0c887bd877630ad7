-- ===== src/Jobs/Heading.antt =====
-- How `TitleAndBody` of internal/jobs/submit.go reads an issue file that begins with a heading.
use sdlc_orchestrator.Common.{
  ℕ, zero, suc, ◌≡◌, refl, ap, ◌∙◌, false, [], ◌∷◌, ◌++◌, some, Bytes, All, ◌==◌,
}
use sdlc_orchestrator.Jobs.{trim_left_hash, cut_line, split_issue, title_and_body}

-- The marks of a heading.
abbrev pub marks : ℕ → Bytes
marks zero = []
marks (suc n) = 35 ∷ marks n

-- A byte of a line is no line end.
abbrev pub InLine : ℕ → Type 0
InLine c = (c == 10) ≡ false

cut_line-marks :
    (n : ℕ) (s : Bytes) → cut_line (marks n ++ s) ≡ (marks n ++ (cut_line s).0, (cut_line s).1)
unfolding cut_line
cut_line-marks zero s = refl
cut_line-marks (suc n) s = rw (cut_line-marks n s) refl

cut_line-line : (h b : Bytes) → All InLine h → cut_line (h ++ 10 ∷ b) ≡ (h, some b)
unfolding cut_line
cut_line-line [] b a = refl
cut_line-line (c ∷ h) b a = rw (a.0, cut_line-line h b (a.1)) refl

trim_left_hash-marks : (n : ℕ) (s : Bytes) → trim_left_hash (marks n ++ s) ≡ trim_left_hash s
unfolding trim_left_hash
trim_left_hash-marks zero s = refl
trim_left_hash-marks (suc n) s = trim_left_hash-marks n s

cut_line-heading :
    (n : ℕ) (h b : Bytes)
    → All InLine h
    → cut_line (marks n ++ 32 ∷ (h ++ 10 ∷ b)) ≡ (marks n ++ 32 ∷ h, some b)
cut_line-heading n h b a =
    cut_line-marks n (32 ∷ (h ++ 10 ∷ b))
    ∙ ap (λ p. (marks n ++ p.0, p.1)) (cut_line-line (32 ∷ h) b (refl, a))

-- A file whose first line is a heading, of any depth, over a body: without a title of its own the text of the
-- heading, less its marks and the space around it, becomes the title, and the trimmed remainder the body.
-- The heading is one line that goes on with a space, and the file has no space around it.
pub title_and_body-heading :
    (trim_space : Bytes → Bytes) (n : ℕ) (h b : Bytes)
    → All InLine h
    → trim_space (marks n ++ 32 ∷ (h ++ 10 ∷ b)) ≡ marks n ++ 32 ∷ (h ++ 10 ∷ b)
    → title_and_body trim_space [] (marks n ++ 32 ∷ (h ++ 10 ∷ b))
      ≡ (trim_space (32 ∷ h), trim_space b)
unfolding title_and_body split_issue
title_and_body-heading trim_space n h b a e =
    ap (λ s. split_issue trim_space (marks n ++ 32 ∷ (h ++ 10 ∷ b)) (cut_line s)) e
    ∙ ap (split_issue trim_space (marks n ++ 32 ∷ (h ++ 10 ∷ b))) (cut_line-heading n h b a)
    ∙ ap (λ s. (trim_space s, trim_space b))
        (trim_left_hash-marks n (32 ∷ h) ∙ unfold trim_left_hash in refl)
