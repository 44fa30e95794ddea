-- ===== src/Login/Dialogue.antt =====
-- What `Login` sends, and what its success means.
use yatb.Login.{
  Server, Sent, Result, undefined, finished, is_code, user_accepted, pass_accepted, succeeded,
  login_pass, login_user, auth_tls, login_tls, login, says,
}
use yatb.Prelude.{
  Bool, not, true, false, List, [], ◌∷◌, ◌++◌, some, if◌then◌else◌, ℤ, pos, ◌≡◌, refl, ap, ◌∙◌, ◌⊎◌,
  inl, inr, Bool-cases, Option-cases, All, All-append,
}
use yatb.Reply.{ftp_code}
use yatb.Text.{Bytes, codes}

-- Nothing but the request for TLS is sent in the clear.
abbrev pub IsSecret : Sent → Type 0
IsSecret s = (s.encrypted ≡ true) ⊎ (s ≡ auth_tls)

abbrev pub Secret : Bool → List Sent → Type 0
Secret usessl sent = (usessl ≡ false) ⊎ All IsSecret sent

-- What can be said of an end with this success.
abbrev pub Ends : Bool → Type 0 → Result → Type 0
Ends usessl Success undefined = Unit
Ends usessl Success (finished true message sent) = Secret usessl sent × Success
Ends usessl Success (finished false message sent) = Secret usessl sent

-- There is a TLS connection if one was asked for.
abbrev pub HasTls : Bool → Bool → Type 0
HasTls usessl ssl = (usessl ≡ false) ⊎ (ssl ≡ true)

Secret-snoc :
    (usessl ssl : Bool) (before : List Sent) (line : Bytes)
    → HasTls usessl ssl
    → Secret usessl before
    → Secret usessl (before ++ (record { encrypted = ssl; line = line }) ∷ [])
Secret-snoc usessl ssl before line (inl e) h = inl e
Secret-snoc usessl ssl before line (inr e) (inl h) = inl h
Secret-snoc usessl ssl before line (inr e) (inr h) =
    inr (All-append IsSecret before ((record { encrypted = ssl; line = line }) ∷ []) h (inl e, tt))

abbrev pub PassedIn : Server → ℤ → Type 0
PassedIn server code =
    (reply : Bytes) × (code' : ℤ) × (server.pass_reply ≡ some reply)
    × (ftp_code reply code ≡ some (true, code'))
    × (pass_accepted reply code' ≡ true)

-- The reply with which the site let the user in: to the user alone, or to the password.
abbrev pub LetIn : Server → Type 0
LetIn server =
    (reply : Bytes) × (code : ℤ) × (server.user_reply ≡ some reply)
    × (ftp_code reply (pos 0) ≡ some (true, code))
    × (user_accepted reply code ≡ true)
    × ((is_code code 230 ≡ true) ⊎ PassedIn server code)

module _ (server : Server) (usessl ssl : Bool) (has_tls : HasTls usessl ssl)
    (Success : Type 0) where
  login_pass-Ends :
      (pass : Bytes) (code : ℤ) (before : List Sent)
      → Secret usessl before
      → (PassedIn server code → Success)
      → Ends usessl Success (login_pass server usessl ssl pass code before)
  unfolding login_pass succeeded
  login_pass-Ends pass code before h give =
      let line = codes "pass " ++ (pass ++ codes "\r\n") in
      let sent : List Sent = before ++ (record { encrypted = ssl; line = line }) ∷ [] in
      let k : Secret usessl sent = Secret-snoc usessl ssl before line has_tls h in
      elim (Bool-cases server.pass_written) [
        | inr w ↦ rw (w, login_pass) k
        | inl w ↦ elim (Option-cases server.pass_reply) [
          | inl r ↦ rw (w, login_pass) (rw r k)
          | inr (reply, r) ↦ elim (Option-cases (ftp_code reply code)) [
            | inl f ↦ rw (w, login_pass) (rw r (rw f tt))
            | inr (t, f) ↦ elim (Bool-cases t.0) [
              | inr g ↦ rw (w, login_pass) (rw r (rw f (rw g k)))
              | inl g ↦ elim (Bool-cases (pass_accepted reply t.1)) [
                | inr a ↦ rw (w, login_pass) (rw r (rw f (rw g (rw a k))))
                | inl a ↦
                    let good = give (reply, t.1, r, f ∙ ap (λ b. some (b, t.1)) g, a) in
                    rw (w, login_pass) (rw r (rw f (rw g (rw a (k, good)))))
              ]
            ]
          ]
        ]
      ]

  login_user-Ends :
      (user pass : Bytes) (before : List Sent)
      → Secret usessl before
      → (LetIn server → Success)
      → Ends usessl Success (login_user server usessl ssl user pass before)
  unfolding login_user succeeded
  login_user-Ends user pass before h give =
      let line = codes "user " ++ (user ++ codes "\r\n") in
      let sent : List Sent = before ++ (record { encrypted = ssl; line = line }) ∷ [] in
      let k : Secret usessl sent = Secret-snoc usessl ssl before line has_tls h in
      elim (Bool-cases server.user_written) [
        | inr w ↦ rw (w, login_user) k
        | inl w ↦ elim (Option-cases server.user_reply) [
          | inl r ↦ rw (w, login_user) (rw r k)
          | inr (reply, r) ↦ elim (Option-cases (ftp_code reply (pos 0))) [
            | inl f ↦ rw (w, login_user) (rw r (rw f tt))
            | inr (t, f) ↦ elim (Bool-cases t.0) [
              | inr g ↦ rw (w, login_user) (rw r (rw f (rw g k)))
              | inl g ↦ elim (Bool-cases (user_accepted reply t.1)) [
                | inr a ↦ rw (w, login_user) (rw r (rw f (rw g (rw a k))))
                | inl a ↦
                    let f' = f ∙ ap (λ b. some (b, t.1)) g in
                    elim (Bool-cases (is_code t.1 230)) [
                      | inl c ↦
                          let good = give (reply, t.1, r, f', a, inl c) in
                          rw (w, login_user) (rw r (rw f (rw g (rw a (rw c (k, good))))))
                      | inr c ↦
                          let next =
                            login_pass-Ends pass t.1 sent k
                              (λ q. give (reply, t.1, r, f', a, inr q)) in
                          rw (w, login_user) (rw r (rw f (rw g (rw a (rw c next)))))
                    ]
              ]
            ]
          ]
        ]
      ]

module _ (server : Server) (Success : Type 0) where
  unless-Ends :
      (b : Bool) (bad good : Result)
      → (b ≡ false → Ends true Success bad)
      → (b ≡ true → Ends true Success good)
      → Ends true Success (if not b then bad else good)
  unless-Ends true bad good off on = on refl
  unless-Ends false bad good off on = off refl

  login_tls-Ends :
      (user pass message : Bytes)
      → (LetIn server → Success)
      → Ends true Success (login_tls server user pass message)
  unfolding login_tls
  login_tls-Ends user pass message give =
      let k : Secret true (auth_tls ∷ []) = inr (inr refl, tt) in
      elim (Bool-cases server.auth_written) [
        | inr w ↦ rw (w, login_tls) k
        | inl w ↦ elim (Option-cases server.auth_reply) [
          | inl r ↦ rw (w, login_tls) (rw r k)
          | inr (reply, r) ↦ elim (Bool-cases (says reply (codes "AUTH TLS successful"))) [
            | inr f ↦ rw (w, login_tls) (rw r (rw f k))
            | inl f ↦
                rw (w, login_tls)
                  (rw r (
                    rw f (
                      unless-Ends server.tls _ _ (λ g. k)
                        (λ g.
                          login_user-Ends server true server.tls (inr g) Success user pass
                            (auth_tls ∷ []) k give))))
          ]
        ]
      ]

-- However `Login` ends, with TLS asked for it has sent neither user nor password in the clear,
-- nothing but `AUTH TLS`. It returns 1 only if the site accepted the user, and then either answered
-- 230 at once or accepted the password too.
pub login-Ends :
    (server : Server) (user pass : Bytes) (usessl : Bool) (message : Bytes)
    → Ends usessl (LetIn server) (login server user pass usessl message)
unfolding login
login-Ends server user pass usessl message = elim (Bool-cases server.connects) [
  | inr c ↦ rw (c, login) nothing
  | inl c ↦ elim (Option-cases server.greeting) [
    | inl g ↦ rw (c, login) (rw g nothing)
    | inr (reply, g) ↦ rw (c, login) (rw g (connected usessl))
  ]
]
  where
    nothing : Secret usessl []
    nothing = inr tt

    connected :
        (ssl : Bool)
        → Ends ssl (LetIn server) (
            if ssl
            then login_tls server user pass message
            else login_user server false false user pass [])
    connected true = login_tls-Ends server (LetIn server) user pass message (λ q. q)
    connected false =
        login_user-Ends server false false (inl refl) (LetIn server) user pass [] (inl refl)
          (λ q. q)
