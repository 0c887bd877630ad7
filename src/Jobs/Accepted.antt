-- ===== src/Jobs/Accepted.antt =====
-- What `Submit` of internal/jobs/submit.go lets in.
use sdlc_orchestrator.Common.{
  ℕ, ◌≡◌, ◌≤◌, refl, ltb, Bool, true, false, Option, none, some, length, is_empty, Bytes, arith,
  if_cases, Bool-cases, inl, inr,
}
use sdlc_orchestrator.Engine.States.{created}
use sdlc_orchestrator.Jobs.{
  SubmitError, Request, Submitted, Target, Outside, has_nul, Submission, accepted, refused,
  ◌otherwise◌, has_control_chars, body_or_title, new_job, create_job, allocate, checked, submit,
  no_id, unknown_target,
}

-- What holds of a job that was let in for the request.
abbrev pub IsSound : Outside → Request → Submitted → Type 0
IsSound out r j =
    (j.issue_title ≡ out.trim_space r.title)
    × (is_empty j.issue_title ≡ false)
    × (length j.issue_title ≤ 500)
    × (has_control_chars out j.issue_title ≡ false)
    × (length j.issue_body ≤ 1048576)
    × (is_empty (out.trim_space j.issue_body) ≡ false)
    × (j.state ≡ created)

-- A submission is refused, or its job is sound.
abbrev pub SoundOr : Outside → Request → Submission → Type 0
SoundOr out r (refused e) = Unit
SoundOr out r (accepted j) = IsSound out r j

refused_or :
    (out : Outside) (r : Request) (b : Bool) (e : SubmitError) (k : Submission)
    → (b ≡ false → SoundOr out r k)
    → SoundOr out r ((b, e) otherwise k)
refused_or out r true e k h = tt
refused_or out r false e k h = h refl

not_longer : (a b : ℕ) → ltb a b ≡ false → b ≤ a
not_longer a b h = ground arith

module _ (out : Outside) where
  -- A body that is blank is replaced by the title, which is not.
  body_or_title_nonblank :
      (body title : Bytes)
      → is_empty (out.trim_space title) ≡ false
      → is_empty (out.trim_space (body_or_title out body title)) ≡ false
  unfolding body_or_title
  body_or_title_nonblank body title h = elim (Bool-cases (is_empty (out.trim_space body))) [
    | inl e ↦ rw e h
    | inr e ↦ rw e e
  ]

  body_or_title_le :
      (body title : Bytes)
      → length body ≤ 1048576
      → length title ≤ 500
      → length (body_or_title out body title) ≤ 1048576
  unfolding body_or_title
  body_or_title_le body title h k = ground arith

  allocate-SoundOr :
      (r : Request) (t : Target)
      → ((s : Bytes) → out.trim_space (out.trim_space s) ≡ out.trim_space s)
      → is_empty (out.trim_space r.title) ≡ false
      → length (out.trim_space r.title) ≤ 500
      → has_control_chars out (out.trim_space r.title) ≡ false
      → length r.body ≤ 1048576
      → SoundOr out r (allocate out r t)
  unfolding allocate create_job new_job
  allocate-SoundOr r t twice some_title short plain body = by_id (out.next_job_id)
    where
      by_id :
          (o : Option Bytes)
          → SoundOr out r
              (elim o [ none ↦ refused no_id | some id ↦ create_job out (new_job out r t id) ])
      by_id none = tt
      by_id (some id) =
          if_cases (SoundOr out r) (out.creates (new_job out r t id)) _ _
            (λ e. (
              refl,
              some_title,
              short,
              plain,
              body_or_title_le r.body (out.trim_space r.title) body short,
              body_or_title_nonblank r.body (out.trim_space r.title)
                  (rw (twice r.title) some_title),
              refl,
            ))
            (λ e. tt)

  -- A submission that `Submit` accepts becomes a CREATED job whose title is the trimmed one, one line, not
  -- empty and at most 500 bytes, and whose body is at most 1 MiB and never blank, if trimming a text twice
  -- is trimming it once.
  pub submit-SoundOr :
      (r : Request)
      → ((s : Bytes) → out.trim_space (out.trim_space s) ≡ out.trim_space s)
      → SoundOr out r (submit out r)
  unfolding submit checked
  submit-SoundOr r twice = by_target (out.find_target r.target)
    where
      by_target :
          (o : Option Target)
          → SoundOr out r (elim o [ none ↦ refused unknown_target | some t ↦ checked out r t ])
      by_target none = tt
      by_target (some t) =
          let title = out.trim_space r.title in
          refused_or out r (is_empty title) _ _ (λ e1.
            refused_or out r (ltb 500 (length title)) _ _ (λ e2.
              refused_or out r (has_control_chars out title) _ _ (λ e3.
                refused_or out r (ltb 1048576 (length r.body)) _ _ (λ e4.
                  refused_or out r (has_nul r.body) _ _ (λ e5.
                    allocate-SoundOr r t twice e1 (not_longer 500 (length title) e2) e3
                      (not_longer 1048576 (length r.body) e4))))))
