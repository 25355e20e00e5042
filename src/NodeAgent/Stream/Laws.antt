-- ===== src/NodeAgent/Stream/Laws.antt =====
-- What the agent reads of the lines of a stream: comments are passed over, and an event is its data.

use certman.Base.{
  String, ◌<>◌, ◌≡◌, refl, ap, ◌∙◌, Bool, true, ◌&&◌, not, some, List, [], ◌∷◌, ◌++◌, All, lstrip,
  strip, split_once, join, arith,
}
use text.Mathlib.TextLemmas.{nil-append, cons-append, append_assoc}
use certman.Delivery.Ingress.{is_break, break_lines}
use certman.NodeAgent.Stream.{Loaded, Event, no_event, loaded_answer, read_lines}

-- No character breaks a line.
unfoldable pub is_line : String → Bool
is_line String.[] = true
is_line (String.◌∷◌ c s) = not (is_break c) && is_line s

-- Each line with a newline after it.
unfoldable pub unlines : List String → String
unlines [] = ""
unlines (l ∷ ls) = l <> "\n" <> unlines ls

pub is_line-append : (s t : String) → is_line s ≡ true → is_line t ≡ true → is_line (s <> t) ≡ true
unfolding is_line
is_line-append String.[] t h k = rw nil-append k
is_line-append (String.◌∷◌ c s) t h k = rw (cons-append c s t) (ground (arith, is_line-append s t))

newline_cons : (t : String) → "\n" <> t ≡ String.◌∷◌ "\n" t
newline_cons t = cons-append "\n" "" t ∙ ap (λ s. String.◌∷◌ "\n" s) (nil-append t)

colon_cons : (t : String) → ":" <> t ≡ String.◌∷◌ ":" t
colon_cons t = cons-append ":" "" t ∙ ap (λ s. String.◌∷◌ ":" s) (nil-append t)

comment_cons : (t : String) → ": " <> t ≡ String.◌∷◌ ":" (" " <> t)
comment_cons t = cons-append ":" " " t

-- The first six characters of a line of data.
data_cons :
    (d : String)
    → "data: " <> d
      ≡ String.◌∷◌ "d"
          (String.◌∷◌ "a" (String.◌∷◌ "t" (String.◌∷◌ "a" (String.◌∷◌ ":" (String.◌∷◌ " " d)))))
data_cons d =
    rw
      (
        cons-append "d" "ata: " d,
        cons-append "a" "ta: " d,
        cons-append "t" "a: " d,
        cons-append "a" ": " d,
        cons-append ":" " " d,
        cons-append " " "" d,
        nil-append d,
      )
      refl

break_line : (l t : String) → is_line l ≡ true → break_lines (l <> "\n" <> t) ≡ l ∷ break_lines t
unfolding is_line break_lines
break_line String.[] t h = rw (nil-append ("\n" <> t), newline_cons t) refl
break_line (String.◌∷◌ c l) t h = rw (cons-append c l ("\n" <> t)) (ground (arith, break_line l t))

-- Breaking plain lines that were put together gives them back.
pub break_lines-unlines :
    (ls : List String) → All (λ l. is_line l ≡ true) ls → break_lines (unlines ls) ≡ ls
unfolding unlines break_lines
break_lines-unlines [] h = refl
break_lines-unlines (l ∷ ls) h =
    break_line l (unlines ls) h.0 ∙ ap (λ r. l ∷ r) (break_lines-unlines ls h.1)

pub unlines-append : (ls ms : List String) → unlines ls <> unlines ms ≡ unlines (ls ++ ms)
unfolding unlines
unlines-append [] ms = nil-append (unlines ms)
unlines-append (l ∷ ls) ms =
    append_assoc l ("\n" <> unlines ls) (unlines ms)
    ∙ ap (λ r. l <> r)
        (append_assoc "\n" (unlines ls) (unlines ms) ∙ ap (λ r. "\n" <> r) (unlines-append ls ms))

module _ {A : Type 0} (loads : String → Loaded A) (broken : Bool) where
  comment_passed :
      (e : Event) (s : String) (ls : List String)
      → read_lines loads broken e ((":" <> s) ∷ ls) ≡ read_lines loads broken e ls
  unfolding read_lines
  comment_passed e s ls = rw (colon_cons s) refl

  blank_passed :
      (ls : List String)
      → read_lines loads broken no_event ("" ∷ ls) ≡ read_lines loads broken no_event ls
  unfolding read_lines
  blank_passed ls = refl

  -- An assignment in one event is what is returned.
  pub assignment_read :
      (d : String) (ls : List String)
      → lstrip d ≡ d
      → read_lines loads broken no_event ("event: assignment" ∷ ("data: " <> d) ∷ "" ∷ ls)
        ≡ loaded_answer loads (loads d)
  unfolding read_lines lstrip split_once strip join
  assignment_read d ls h = rw (data_cons d, h) refl

  pub timeout_read :
      (ls : List String)
      → read_lines loads broken no_event ("event: timeout" ∷ "data: {}" ∷ "" ∷ ls) ≡ some []
  unfolding read_lines lstrip split_once strip
  timeout_read ls = refl

  pub connected_passed :
      (d : String) (ls : List String)
      → read_lines loads broken no_event ("event: connected" ∷ ("data: " <> d) ∷ "" ∷ ls)
        ≡ read_lines loads broken no_event ls
  unfolding read_lines lstrip split_once strip
  connected_passed d ls = rw (data_cons d) refl

  pub keepalive_passed :
      (s : String) (ls : List String)
      → read_lines loads broken no_event ((": " <> s) ∷ "" ∷ ls)
        ≡ read_lines loads broken no_event ls
  unfolding read_lines
  keepalive_passed s ls = rw (comment_cons s) refl
