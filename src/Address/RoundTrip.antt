-- ===== src/Address/RoundTrip.antt =====
-- `CreatePsvCommand` and `ParsePsvCommand`.
use yatb.Address.{Local, own_ip, comma_ip, create_psv_command, parse_psv_command}
use yatb.Address.Parse.{
  dotted, in_commas, parse_psv_command_lem, replace_first_lem, replace_second, replace_third,
}
use yatb.Prelude.{
  ℕ, ◌/◌, ◌%◌, true, false, [], ◌∷◌, ◌++◌, some, ℤ, pos, ◌+ℤ◌, ◌*ℤ◌, ◌≡◌, ◌≢◌, arith, ◌∙◌, ap, ap₂,
  append_assoc, All, All-append,
}
use yatb.Text.{Bytes, codes, is_empty, Lacks}
use yatb.Text.Number.{atoi, print, atoi-print, AreDigits, print-AreDigits}

-- A part of an address: none of the bytes that the two formats use for marks.
abbrev pub IsPart : Bytes → Type 0
IsPart = All (λ c. (c ≢ b'.') × (c ≢ b',') × (c ≢ b')'))

part_Lacks_dot : (s : Bytes) → IsPart s → Lacks b'.' s
part_Lacks_dot [] h = tt
part_Lacks_dot (c ∷ s) h = (h.0.0, part_Lacks_dot s h.1)

part_Lacks_comma : (s : Bytes) → IsPart s → Lacks b',' s
part_Lacks_comma [] h = tt
part_Lacks_comma (c ∷ s) h = (h.0.1, part_Lacks_comma s h.1)

part_Lacks_close : (s : Bytes) → IsPart s → Lacks b')' s
part_Lacks_close [] h = tt
part_Lacks_close (c ∷ s) h = (h.0.2, part_Lacks_close s h.1)

digits_IsPart : (s : Bytes) → AreDigits s → IsPart s
digits_IsPart [] h = tt
digits_IsPart (c ∷ s) h = ((omega arith, omega arith, omega arith), digits_IsPart s h.1)

comma_ip-dotted :
    (a b c d : Bytes)
    → IsPart a
    → IsPart b
    → IsPart c
    → comma_ip (dotted a b c d) ≡ some (a ++ b',' ∷ (b ++ b',' ∷ (c ++ b',' ∷ d)))
unfolding comma_ip
comma_ip-dotted a b c d ha hb hc =
    let ne : ◌≢◌ {A = ℕ} b',' b'.' = omega arith in
    ground (
      arith,
      replace_first_lem b'.' b',' a (b ++ b'.' ∷ (c ++ b'.' ∷ d)) (part_Lacks_dot a ha),
      replace_second b'.' b',' ne a b (c ++ b'.' ∷ d) (part_Lacks_dot a ha) (part_Lacks_dot b hb),
      replace_third b'.' b',' ne a b c d (part_Lacks_dot a ha) (part_Lacks_dot b hb)
          (part_Lacks_dot c hc),
    )

port_parts : (port : ℕ) → pos (port / 256) *ℤ pos 256 +ℤ pos (port % 256) ≡ pos port
unfolding ◌+ℤ◌ ◌*ℤ◌
port_parts port = ground arith

-- The passive reply that the bouncer makes for its own address `a.b.c.d`, whose parts have no
-- dots, commas and parentheses, and any port is read back to that address and that port.
pub parse_psv_command-create :
    (local : Local) (a b c d ip : Bytes) (port : ℕ) (port' : ℤ)
    → own_ip local ≡ dotted a b c d
    → IsPart a
    → IsPart b
    → IsPart c
    → IsPart d
    → (reply : Bytes) × (create_psv_command local port ≡ some reply)
      × (parse_psv_command reply ip port'
          ≡ record { ret = true; ip = dotted a b c d; port = pos port })
unfolding create_psv_command
parse_psv_command-create local a b c d ip port port' e ha hb hc hd = (reply, made, read)
  where
    p : Bytes
    p = print (port / 256)

    q : Bytes
    q = print (port % 256)

    dp : AreDigits p × (is_empty p ≡ false)
    dp = print-AreDigits (port / 256)

    dq : AreDigits q × (is_empty q ≡ false)
    dq = print-AreDigits (port % 256)

    reply : Bytes
    reply =
        codes "227 Entering Passive Mode " ++ b'(' ∷ (in_commas a b c d p q ++ b')' ∷ codes "\r\n")

    made : create_psv_command local port ≡ some reply
    made =
        rw (ap comma_ip e ∙ comma_ip-dotted a b c d ha hb hc, create_psv_command)
          (ap (λ u. some (codes "227 Entering Passive Mode (" ++ u)) (simp append_assoc))

    close : (x y : Bytes) → Lacks b')' x → Lacks b')' y → Lacks b')' (x ++ b',' ∷ y)
    close x y h k = All-append (λ u. u ≢ b')') x (b',' ∷ y) h ((omega arith), k)

    no_close : Lacks b')' (in_commas a b c d p q)
    no_close = close a _ (part_Lacks_close a ha) (
        close b _ (part_Lacks_close b hb) (
          close c _ (part_Lacks_close c hc) (
            close d _ (part_Lacks_close d hd) (
              close p q (part_Lacks_close p (digits_IsPart p dp.0))
                (part_Lacks_close q (digits_IsPart q dq.0))))))

    value : atoi p *ℤ pos 256 +ℤ atoi q ≡ pos port
    value =
        ap₂ (λ x y. x *ℤ pos 256 +ℤ y) (atoi-print (port / 256)) (atoi-print (port % 256))
        ∙ port_parts port

    read :
        parse_psv_command reply ip port'
        ≡ record { ret = true; ip = dotted a b c d; port = pos port }
    read =
        parse_psv_command_lem a b c d p q (part_Lacks_comma a ha) (part_Lacks_comma b hb)
          (part_Lacks_comma c hc) (part_Lacks_comma d hd)
          (part_Lacks_comma p (digits_IsPart p dp.0)) dp.1 dq.1 (codes "227 Entering Passive Mode ")
          (codes "\r\n") ip port' (omega arith) (omega arith) no_close
        ∙ ap (λ n. record { ret = true; ip = dotted a b c d; port = n }) value
