-- ===== src/Reply/Lines.antt =====
-- `GetLine`: what it returns.
use yatb.Prelude.{
  true, false, List, [], ◌∷◌, ◌++◌, none, some, map, ◌≡◌, refl, sym, ◌∙◌, ap, subst, append_assoc,
  append-nil, Option-cases, inl, inr,
}
use yatb.Text.{Bytes}
use yatb.Reply.{
  is_endline, Reading, failed, got, Outcome, undefined, read_error, waiting, reply, line_loop,
  get_line,
}

-- The texts one after the other.
abbrev pub concat : List Bytes → Bytes
concat [] = []
concat (t ∷ ts) = t ++ concat ts

-- What a finished reply is made of.
abbrev pub Finished : Bytes → List Reading → Outcome → Type 0
Finished rep rs undefined = Unit
Finished rep rs read_error = Unit
Finished rep rs (waiting t) = Unit
Finished rep rs (reply t rest) =
    (used : List Bytes) × (rs ≡ map got used ++ rest)
    × (t ≡ rep ++ concat used)
    × (is_endline t ≡ some true)

-- The loop ends where the text is undefined or a finished reply.
line_loop-none :
    (rep : Bytes) (rs : List Reading) → is_endline rep ≡ none → line_loop rep rs ≡ undefined
unfolding line_loop
line_loop-none rep [] e = rw (e, line_loop) refl
line_loop-none rep (failed ∷ rs) e = rw (e, line_loop) refl
line_loop-none rep (got tmp ∷ rs) e = rw (e, line_loop) refl

line_loop_done :
    (rep : Bytes) (rs : List Reading) → is_endline rep ≡ some true → line_loop rep rs ≡ reply rep rs
unfolding line_loop
line_loop_done rep [] e = rw (e, line_loop) refl
line_loop_done rep (failed ∷ rs) e = rw (e, line_loop) refl
line_loop_done rep (got tmp ∷ rs) e = rw (e, line_loop) refl

line_loop_next :
    (rep tmp : Bytes) (rs : List Reading)
    → is_endline rep ≡ some false
    → (line_loop rep [] ≡ waiting rep)
      × (line_loop rep (failed ∷ rs) ≡ read_error)
      × (line_loop rep (got tmp ∷ rs) ≡ line_loop (rep ++ tmp) rs)
unfolding line_loop
line_loop_next rep tmp rs e =
    (rw (e, line_loop) refl, rw (e, line_loop) refl, rw (e, line_loop) refl)

ended :
    (rep : Bytes) (rs : List Reading) (o : Outcome)
    → is_endline rep ≡ some true
    → line_loop rep rs ≡ o
    → Finished rep rs o
ended rep rs o e h =
    subst (Finished rep rs) (sym (line_loop_done rep rs e) ∙ h) ([], refl, sym (append-nil rep), e)

line_loop-Finished : (rep : Bytes) (rs : List Reading) → Finished rep rs (line_loop rep rs)
line_loop-Finished rep [] = elim (Option-cases (is_endline rep)) [
  | inl e ↦ subst (Finished rep []) (sym (line_loop-none rep [] e)) tt
  | inr (true, e) ↦ ended rep [] _ e refl
  | inr (false, e) ↦ subst (Finished rep []) (sym (line_loop_next rep [] [] e).0) tt
]
line_loop-Finished rep (failed ∷ rs) = elim (Option-cases (is_endline rep)) [
  | inl e ↦ subst (Finished rep (failed ∷ rs)) (sym (line_loop-none rep (failed ∷ rs) e)) tt
  | inr (true, e) ↦ ended rep (failed ∷ rs) _ e refl
  | inr (false, e) ↦ subst (Finished rep (failed ∷ rs)) (sym (line_loop_next rep [] rs e).1) tt
]
line_loop-Finished rep (got tmp ∷ rs) = elim (Option-cases (is_endline rep)) [
  | inl e ↦ subst (Finished rep (got tmp ∷ rs)) (sym (line_loop-none rep (got tmp ∷ rs) e)) tt
  | inr (true, e) ↦ ended rep (got tmp ∷ rs) _ e refl
  | inr (false, e) ↦
      subst (Finished rep (got tmp ∷ rs)) (sym (line_loop_next rep tmp rs e).2)
        (extend (line_loop (rep ++ tmp) rs) (line_loop-Finished (rep ++ tmp) rs))
]
  where
    extend : (o : Outcome) → Finished (rep ++ tmp) rs o → Finished rep (got tmp ∷ rs) o
    extend undefined f = tt
    extend read_error f = tt
    extend (waiting t) f = tt
    extend (reply t rest) (used, parts, text, ends) =
        (tmp ∷ used, ap (λ l. got tmp ∷ l) parts, text ∙ append_assoc rep tmp (concat used), ends)

-- A reply that `GetLine` returns is what it read, whole and in order, it ends with the last line of
-- an FTP reply, and what the server sent behind it is left for the next call.
pub get_line_sound :
    (rs rest : List Reading) (t : Bytes)
    → get_line rs ≡ reply t rest
    → (used : List Bytes) × (rs ≡ map got used ++ rest)
      × (t ≡ concat used)
      × (is_endline t ≡ some true)
unfolding get_line
get_line_sound rs rest t h = subst (Finished [] rs) h (line_loop-Finished [] rs)

-- Behind what was read, no text is a finished reply before the last of the texts is read.
abbrev pub CompletesAtLast : Bytes → List Bytes → Type 0
CompletesAtLast rep [] = is_endline rep ≡ some true
CompletesAtLast rep (t ∷ ts) = (is_endline rep ≡ some false) × CompletesAtLast (rep ++ t) ts

line_loop-CompletesAtLast :
    (ts : List Bytes) (rest : List Reading) (rep : Bytes)
    → CompletesAtLast rep ts
    → line_loop rep (map got ts ++ rest) ≡ reply (rep ++ concat ts) rest
line_loop-CompletesAtLast [] rest rep h =
    line_loop_done rep rest h ∙ ap (λ t. reply t rest) (sym (append-nil rep))
line_loop-CompletesAtLast (t ∷ ts) rest rep h =
    (line_loop_next rep t (map got ts ++ rest) h.0).2
    ∙ line_loop-CompletesAtLast ts rest (rep ++ t) h.1
    ∙ ap (λ u. reply u rest) (append_assoc rep t (concat ts))

-- A reply that arrives in any number of pieces, and is finished with the last of them and not
-- before, is returned, and nothing behind it is read.
pub get_line_complete :
    (ts : List Bytes) (rest : List Reading)
    → CompletesAtLast [] ts
    → get_line (map got ts ++ rest) ≡ reply (concat ts) rest
unfolding get_line
get_line_complete ts rest h = line_loop-CompletesAtLast ts rest [] h
