-- ===== src/Address/Parse.antt =====
-- What the parsers make of a well-formed command.
use yatb.Address.{
  replace_first, cut_rest, parse_port_address, parse_port_command, parse_psv_address,
  parse_psv_command,
}
use yatb.Prelude.{
  ℕ, suc, ◌+◌, ◌-◌, true, false, [], ◌∷◌, ◌++◌, some, length, leb, if◌then◌else◌, ℤ, pos, ◌+ℤ◌,
  ◌*ℤ◌, ◌≡◌, ◌≢◌, refl, sym, arith, ◌∙◌, ap, append_assoc, All-append, take_prefix,
  drop_prefix_cons, take_all, length-append,
}
use yatb.Text.{
  Bytes, codes, is_empty, is_empty-append, find, Lacks, find-first_field, first_field-append,
}
use yatb.Text.Number.{atoi}

pub find_byte : (c : ℕ) (p r : Bytes) → Lacks c p → find (p ++ c ∷ r) (c ∷ []) ≡ some (length p)
find_byte c p r h = ground (arith, find-first_field c (p ++ c ∷ r), first_field-append c p r h)

pub replace_first_lem :
    (from to : ℕ) (p r : Bytes)
    → Lacks from p
    → replace_first from to (p ++ from ∷ r) ≡ some (p ++ to ∷ r)
unfolding replace_first
replace_first_lem from to p r h =
    let e : length p + 1 ≡ suc (length p) = omega arith in
    rw (find_byte from p r h, replace_first) (rw (e, take_prefix, drop_prefix_cons) refl)

pub cut_rest_lem : (c : ℕ) (p r : Bytes) → Lacks c p → cut_rest c (p ++ c ∷ r) ≡ some (p, r)
unfolding cut_rest
cut_rest_lem c p r h =
    let e : length p + 1 ≡ suc (length p) = omega arith in
    let n : length (p ++ c ∷ r) ≡ length p + suc (length r) = length-append p (c ∷ r) in
    rw (find_byte c p r h, cut_rest)
      (rw (e, take_prefix, drop_prefix_cons, take_all (length (p ++ c ∷ r)) r (omega arith)) refl)

-- A text in dots, and one between commas.
abbrev pub dotted : Bytes → Bytes → Bytes → Bytes → Bytes
dotted a b c d = a ++ b'.' ∷ (b ++ b'.' ∷ (c ++ b'.' ∷ d))

abbrev pub in_commas : Bytes → Bytes → Bytes → Bytes → Bytes → Bytes → Bytes
in_commas a b c d p q = a ++ b',' ∷ (b ++ b',' ∷ (c ++ b',' ∷ (d ++ b',' ∷ (p ++ b',' ∷ q))))

-- The second and third occurrence of a byte, the ones before it replaced.
module _ (from to : ℕ) (ne : to ≢ from) where
  pub Lacks-joined : (x y : Bytes) → Lacks from x → Lacks from y → Lacks from (x ++ to ∷ y)
  Lacks-joined x y h k = All-append (λ c. c ≢ from) x (to ∷ y) h (ne, k)

  pub replace_second :
      (a b t : Bytes)
      → Lacks from a
      → Lacks from b
      → replace_first from to (a ++ to ∷ (b ++ from ∷ t)) ≡ some (a ++ to ∷ (b ++ to ∷ t))
  replace_second a b t h k =
      ap (replace_first from to) (sym (append_assoc a (to ∷ b) (from ∷ t)))
      ∙ replace_first_lem from to (a ++ to ∷ b) t (Lacks-joined a b h k)
      ∙ ap some (append_assoc a (to ∷ b) (to ∷ t))

  pub replace_third :
      (a b c t : Bytes)
      → Lacks from a
      → Lacks from b
      → Lacks from c
      → replace_first from to (a ++ to ∷ (b ++ to ∷ (c ++ from ∷ t)))
        ≡ some (a ++ to ∷ (b ++ to ∷ (c ++ to ∷ t)))
  replace_third a b c t h k m =
      ap (replace_first from to) (sym (append_assoc a (to ∷ b) (to ∷ (c ++ from ∷ t))))
      ∙ replace_second (a ++ to ∷ b) c t (Lacks-joined a b h k) m
      ∙ ap some (append_assoc a (to ∷ b) (to ∷ (c ++ to ∷ t)))

dot_ne_comma : ◌≢◌ {A = ℕ} b'.' b','
dot_ne_comma = omega arith

fourth_comma :
    (a b c d t : Bytes)
    → Lacks b',' a
    → Lacks b',' b
    → Lacks b',' c
    → Lacks b',' d
    → cut_rest b',' (a ++ b'.' ∷ (b ++ b'.' ∷ (c ++ b'.' ∷ (d ++ b',' ∷ t))))
      ≡ some (dotted a b c d, t)
fourth_comma a b c d t h k m n =
    let joined = Lacks-joined b',' b'.' dot_ne_comma in
    let regroup : a ++ b'.' ∷ (b ++ b'.' ∷ (c ++ b'.' ∷ (d ++ b',' ∷ t)))
        ≡ dotted a b c d ++ b',' ∷ t =
      simp append_assoc in
    ap (cut_rest b',') regroup
    ∙ cut_rest_lem b',' (dotted a b c d) t (joined a _ h (joined b _ k (joined c d m n)))

-- The text between the parentheses.
psv_body :
    (words body rest ip : Bytes) (port : ℤ)
    → Lacks b'(' words
    → Lacks b')' words
    → Lacks b')' body
    → parse_psv_command (words ++ b'(' ∷ (body ++ b')' ∷ rest)) ip port
      ≡ parse_psv_address body ip port
unfolding parse_psv_command
psv_body words body rest ip port h k m =
    let text = words ++ b'(' ∷ (body ++ b')' ∷ rest) in
    let regroup : text ≡ (words ++ b'(' ∷ body) ++ b')' ∷ rest = simp append_assoc in
    let no_close : Lacks b')' (words ++ b'(' ∷ body) =
      All-append (λ x. x ≢ b')') words (b'(' ∷ body) k ((omega arith), m) in
    let opened : find text (codes "(") ≡ some (length words) = find_byte b'(' words _ h in
    let closed : find text (codes ")") ≡ some (length (words ++ b'(' ∷ body)) =
      ap (λ u. find u (codes ")")) regroup ∙ find_byte b')' (words ++ b'(' ∷ body) rest no_close in
    let n : length (words ++ b'(' ∷ body) ≡ length words + suc (length body) =
      length-append words (b'(' ∷ body) in
    let len : (if leb (length words + 1) (length (words ++ b'(' ∷ body))
          then length (words ++ b'(' ∷ body) - length words - 1
          else length text)
        ≡ length body =
      ground (arith, n) in
    let one_more : 1 + length words ≡ suc (length words) = omega arith in
    rw (opened, parse_psv_command)
      (rw (closed, parse_psv_command) (rw (len, one_more, drop_prefix_cons, take_prefix) refl))

module _ (a b c d p q : Bytes) (ha : Lacks b',' a) (hb : Lacks b',' b) (hc : Lacks b',' c)
    (hd : Lacks b',' d) (hp : Lacks b',' p) (np : is_empty p ≡ false)
    (nq : is_empty q ≡ false) where
  parse_port_address_lem :
      (ip : Bytes) (port : ℤ)
      → parse_port_address (in_commas a b c d p q) ip port
        ≡ record { ret = true; ip = dotted a b c d; port = pos 256 *ℤ atoi p +ℤ atoi q }
  unfolding parse_port_address
  parse_port_address_lem ip port =
      let tmp = p ++ b',' ∷ q in
      let tmp3 = c ++ b',' ∷ (d ++ b',' ∷ tmp) in
      ground (
        arith,
        replace_first_lem b',' b'.' a (b ++ b',' ∷ tmp3) ha,
        replace_second b',' b'.' dot_ne_comma a b tmp3 ha hb,
        replace_third b',' b'.' dot_ne_comma a b c (d ++ b',' ∷ tmp) ha hb hc,
        fourth_comma a b c d tmp ha hb hc hd,
        cut_rest_lem b',' p q hp,
        np,
        nq,
      )

  parse_psv_address_lem :
      (ip : Bytes) (port : ℤ)
      → parse_psv_address (in_commas a b c d p q) ip port
        ≡ record { ret = true; ip = dotted a b c d; port = atoi p *ℤ pos 256 +ℤ atoi q }
  unfolding parse_psv_address
  parse_psv_address_lem ip port =
      let tmp4 = p ++ b',' ∷ q in
      let tmp3 = d ++ b',' ∷ tmp4 in
      let tmp2 = c ++ b',' ∷ tmp3 in
      let tmp1 = b ++ b',' ∷ tmp2 in
      ground (
        arith,
        is_empty-append b',' a tmp1,
        cut_rest_lem b',' a tmp1 ha,
        cut_rest_lem b',' b tmp2 hb,
        cut_rest_lem b',' c tmp3 hc,
        cut_rest_lem b',' d tmp4 hd,
        cut_rest_lem b',' p q hp,
        np,
        nq,
      )

  -- `ParsePortCommand` of a word, a blank and `a,b,c,d,p,q`, where the first five parts have no
  -- commas, p and q are not empty, and the word has no blank: it returns 1, the address in dots
  -- and the port p * 256 + q.
  pub parse_port_command_lem :
      (word ip : Bytes) (port : ℤ)
      → Lacks b' ' word
      → parse_port_command (word ++ b' ' ∷ in_commas a b c d p q) ip port
        ≡ record { ret = true; ip = dotted a b c d; port = pos 256 *ℤ atoi p +ℤ atoi q }
  unfolding parse_port_command
  parse_port_command_lem word ip port h =
      rw (cut_rest_lem b' ' word (in_commas a b c d p q) h, parse_port_command)
        (parse_port_address_lem ip port)

  -- A passive reply with `(a,b,c,d,p,q)` in it, in whatever words: the address in dots, and the port
  -- p * 256 + q.
  pub parse_psv_command_lem :
      (words rest ip : Bytes) (port : ℤ)
      → Lacks b'(' words
      → Lacks b')' words
      → Lacks b')' (in_commas a b c d p q)
      → parse_psv_command (words ++ b'(' ∷ (in_commas a b c d p q ++ b')' ∷ rest)) ip port
        ≡ record { ret = true; ip = dotted a b c d; port = atoi p *ℤ pos 256 +ℤ atoi q }
  parse_psv_command_lem words rest ip port h k m =
      psv_body words (in_commas a b c d p q) rest ip port h k m ∙ parse_psv_address_lem ip port
