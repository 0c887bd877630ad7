-- ===== src/Diff/Caps.antt =====
-- The bound on the reconciliation text of internal/diff/diff.go, and what an empty line at the end of
-- a hunk does to the line behind it.
use sdlc_orchestrator.Common.{
  ℕ, suc, ◌∙◌, map, ◌+◌, ◌≤◌, ◌≡◌, refl, false, List, [], ◌∷◌, ◌++◌, some, arith, Bytes, codes, All,
  length, length-append,
}
use sdlc_orchestrator.Diff.{File, Hunk, GoText, context, del}
use sdlc_orchestrator.Diff.Flags.{flag, joined, max_malformed}
use sdlc_orchestrator.Diff.Parser.{
  Parser, empty_file, inc, owes, over, st_header, add_line, add_to, settle, step_hunk, step_in,
  step, fed_pair,
}
use sdlc_orchestrator.Diff.Parse.{feed, first_pass, run}
use sdlc_orchestrator.Diff.Body.{
  Change, print, inside, complete, run-inside, old_count, new_count, old_end, new_end, with_counts,
  lines_from,
}

-- The messages of one file, one after the other.
pub flag_all : List Bytes → File → File
flag_all [] f = f
flag_all (m ∷ ms) f = flag_all ms (flag m f)

abbrev pub Capped : ℕ → File → Type 0
Capped n f =
    (f.malformed_over ≡ false → length f.malformed ≤ max_malformed)
    × (length f.malformed ≤ max_malformed + 2 + n)

length-joined : (old msg : Bytes) → length (joined old msg) ≤ length old + 2 + length msg
unfolding joined
length-joined old msg = ground (arith, length-append old (codes "; " ++ msg))

flag-Capped : (n : ℕ) (msg : Bytes) (f : File) → length msg ≤ n → Capped n f → Capped n (flag msg f)
unfolding flag
flag-Capped n msg f h c = ground (arith, length-joined f.malformed msg)

flag_all-Capped :
    (n : ℕ) (ms : List Bytes) (f : File)
    → All (λ m. length m ≤ n) ms
    → Capped n f
    → Capped n (flag_all ms f)
unfolding flag_all
flag_all-Capped n [] f h c = c
flag_all-Capped n (m ∷ ms) f h c = flag_all-Capped n ms (flag m f) h.1 (flag-Capped n m f h.0 c)

-- However many messages a file gets, the text that they leave is at most 1024 bytes longer than one
-- message with its separator, if no message is longer than `n` bytes.
pub malformed_bound :
    (n : ℕ) (ms : List Bytes)
    → All (λ m. length m ≤ n) ms
    → length (flag_all ms empty_file).malformed ≤ 1026 + n
malformed_bound n ms h = omega (arith, (flag_all-Capped n ms empty_file h (omega arith)).1)

-- The parser that has read an empty line and the header of another file as two lines of its hunk.
abbrev pub swallowed : Parser → File → Hunk → ℕ → ℕ → Bytes → Parser
swallowed p f h o n name = record p {
  state = st_header;
  cur = some (record f { dels = f.dels + 1 });
  hunk = some (record h {
    lines =
        (h.lines
          ++ record { kind = context; old_no = o; new_no = n; text = []; no_newline = false } ∷ [])
        ++ record {
          kind = del;
          old_no = inc o;
          new_no = 0;
          text = codes "-- " ++ name;
          no_newline = false;
        }
          ∷ [];
  });
  old_no = inc (inc o);
  new_no = inc n;
  old_rem = over 0;
  new_rem = owes 0;
}

-- The hunk behind the changes and one more empty line of context.
abbrev pub with_blank : Hunk → ℕ → ℕ → List Change → Hunk
with_blank h o n cs = record h {
  lines =
      (h.lines ++ lines_from o n cs)
      ++ record {
        kind = context;
        old_no = old_end o cs;
        new_no = new_end n cs;
        text = [];
        no_newline = false;
      }
        ∷ [];
}

abbrev pub behind : Hunk → ℕ → ℕ → List Change → Hunk
behind h o n cs = record h { lines = h.lines ++ lines_from o n cs }

blank_line :
    (go : GoText) (p : Parser) (f : File) (h : Hunk) (o n : ℕ) (name : Bytes) (ls : List Bytes)
    → run go ([] ∷ (codes "--- " ++ name) ∷ ls) (inside p f h o n 1 1)
      ≡ run go ls (swallowed p f h o n name)
unfolding run feed first_pass step step_in fed_pair step_hunk settle add_line add_to
blank_line go p f h o n name ls = refl

spaced_line :
    (go : GoText) (p : Parser) (f : File) (h : Hunk) (o n : ℕ) (ls : List Bytes)
    → run go (codes " " ∷ ls) (inside p f h o n 1 1)
      ≡ run go ls (
          complete p f
            (record h {
              lines =
                  h.lines
                  ++ record {
                    kind = context;
                    old_no = o;
                    new_no = n;
                    text = [];
                    no_newline = false;
                  }
                    ∷ [];
            })
            (inc o)
            (inc n))
unfolding run feed first_pass step step_in fed_pair step_hunk settle add_line add_to
spaced_line go p f h o n ls = refl

-- Any changes and one empty line of context are what an open hunk owes. Where that last line has its leading space, the
-- hunk is complete and the parser goes on in its header state, whatever follows. Where the line has lost the space
-- it is the same line of the hunk, but the parser stays inside the hunk, so that a `--- ` header that follows, whatever
-- it names, is read as a deletion, and no new file begins.
pub blank_swallows_header :
    (go : GoText) (p : Parser) (f : File) (h : Hunk) (o n : ℕ) (cs : List Change) (name : Bytes)
    (ls : List Bytes)
    → (run go
          (map print cs ++ codes " " ∷ ls)
          (inside p f h o n (suc (old_count cs)) (suc (new_count cs)))
        ≡ run go ls (
            complete p
              (with_counts f cs)
              (with_blank h o n cs)
              (inc (old_end o cs))
              (inc (new_end n cs))))
      × (run go
            (map print cs ++ [] ∷ (codes "--- " ++ name) ∷ ls)
            (inside p f h o n (suc (old_count cs)) (suc (new_count cs)))
          ≡ run go ls
              (swallowed p (with_counts f cs) (behind h o n cs) (old_end o cs) (new_end n cs) name))
blank_swallows_header go p f h o n cs name ls = (
  run-inside go p _ cs f h o n
      ∙ spaced_line go p (with_counts f cs) (behind h o n cs) (old_end o cs) (new_end n cs) ls,
  run-inside go p _ cs f h o n
      ∙ blank_line go p (with_counts f cs) (behind h o n cs) (old_end o cs) (new_end n cs) name ls,
)
