-- ===== src/Whitelist/RoundTrip.antt =====
-- `WriteList` and `ReadList`: what is written is read back.
use mathlib.Core.List.{foldl}
use yatb.ListFile.{store, load}
use yatb.ListFile.RoundTrip.{lines_text, IsLine, load-store}
use yatb.Platform.{Crypto, IsCipher, Disk}
use yatb.Prelude.{
  true, false, not, List, [], ◌∷◌, ◌++◌, some, map, ◌≡◌, refl, sym, arith, ◌∙◌, ap, ap₂, subst,
  append_assoc, append-nil, All,
}
use yatb.Text.{Bytes, is_empty, is_empty-append, cut_at-append, Lacks}
use yatb.Whitelist.{
  Entry, Whitelist, Settings, has_ip, stored_as, is_in_list, insert_nokey, entry_line, write_loop,
  write_list, read_list,
}

write_loop-lines :
    (es : List Entry) (daten : Bytes)
    → write_loop daten es ≡ daten ++ lines_text (map entry_line es)
unfolding write_loop lines_text
write_loop-lines [] daten = sym (append-nil daten)
write_loop-lines (e ∷ es) daten = simp (write_loop-lines es, append_assoc)

-- The commas of a line are where the reader looks for them, and no field breaks the line.
abbrev pub IsEntry : Entry → Type 0
IsEntry e = Lacks b',' e.ip × Lacks b',' e.comment × IsLine (entry_line e)

module _ (crypto : Crypto) (config : Settings) where
  insert_nokey_line :
      (w : Whitelist) (e : Entry)
      → Lacks b',' e.ip
      → Lacks b',' e.comment
      → is_in_list crypto config w (entry_line e) ≡ false
      → insert_nokey crypto config w (entry_line e) ≡ record w { list = w.list ++ e ∷ [] }
  unfolding insert_nokey entry_line
  insert_nokey_line w e h k f = ground (
    arith,
    f,
    is_empty-append b',' e.ip (e.comment ++ b',' ∷ e.user),
    cut_at-append b',' e.ip (e.comment ++ b',' ∷ e.user) h,
    cut_at-append b',' e.comment e.user k,
  )

  -- No line of the list, taken for an address, is stored as an address of the list. Without hashes
  -- this holds by itself; with hashes it says that the lines hash to none of the stored hashes.
  abbrev pub NoLineStored : List Entry → List Entry → Type 0
  NoLineStored all = All (λ e. has_ip (stored_as crypto config (entry_line e)) all ≡ false)

  has_ip-prefix :
      (t : Bytes) (es fs : List Entry) → has_ip t (es ++ fs) ≡ false → has_ip t es ≡ false
  unfolding has_ip
  has_ip-prefix t [] fs h = refl
  has_ip-prefix t (e ∷ es) fs h = ground (arith, has_ip-prefix t es fs)

  foldl-insert_nokey :
      (es done : List Entry)
      → All IsEntry es
      → NoLineStored (done ++ es) es
      → foldl (insert_nokey crypto config) (record { list = done }) (map entry_line es)
        ≡ (record { list = done ++ es })
  foldl-insert_nokey [] done h n = ap (λ t. record { list = t }) (sym (append-nil done))
  foldl-insert_nokey (e ∷ es) done h n =
      let stays : is_in_list crypto config (record { list = done }) (entry_line e) ≡ false =
        unfold is_in_list in has_ip-prefix _ done (e ∷ es) n.0 in
      let regroup = append_assoc done (e ∷ []) es in
      ap (λ w. foldl (insert_nokey crypto config) w (map entry_line es))
        (insert_nokey_line (record { list = done }) e h.0.0 h.0.1 stays)
      ∙ foldl-insert_nokey es (done ++ e ∷ []) h.1
          (subst (λ all. NoLineStored all es) (sym regroup) n.1)
      ∙ ap (λ t. record { list = t }) regroup

  lines : (es : List Entry) → All IsEntry es → All IsLine (map entry_line es)
  lines [] h = tt
  lines (e ∷ es) h = (h.0.2, lines es h.1)

  -- A white list that is written to a file is read back from it, by the program started anew, entry
  -- for entry. The name can be written to, the fields hold no line ends and NULs, addresses and
  -- comments no commas; the key is the one that wrote the file, and `crypted_iplist` says whether
  -- there is one; and no line of the file is itself stored as an address.
  pub read_list-write_list :
      (disk : Disk) (filename key : Bytes) (w : Whitelist)
      → IsCipher crypto
      → disk.writable filename ≡ true
      → config.crypted_iplist ≡ not (is_empty key)
      → All IsEntry w.list
      → NoLineStored w.list w.list
      → read_list crypto config
          (write_list crypto disk filename key w).0
          filename
          key
          (record { list = [] })
        ≡ some (true, w)
  unfolding read_list write_list
  read_list-write_list disk filename key w c h k e n =
      let fresh : Whitelist = record { list = [] } in
      ap₂
        (λ crypted text.
          load (insert_nokey crypto config) crypto (store crypto disk filename key text).0 crypted
            filename key fresh)
        k (write_loop-lines w.list [])
      ∙ load-store (insert_nokey crypto config) crypto disk filename key (map entry_line w.list)
          fresh c h (lines w.list e)
      ∙ ap (λ t. some (true, t)) (foldl-insert_nokey w.list [] e n)
