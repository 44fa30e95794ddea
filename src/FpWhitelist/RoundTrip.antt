-- ===== src/FpWhitelist/RoundTrip.antt =====
-- `WriteList` and `ReadList`: what is read back.
use mathlib.Core.List.{foldl, map-append}
use yatb.FpWhitelist.{
  FpEntry, FpWhitelist, Settings, has_fp, is_in_list, insert, write_ips, write_loop, write_list,
  read_list,
}
use yatb.FpWhitelist.Insert.{IsIp, file_line, insert_line, has_fp-append}
use yatb.ListFile.{store, load}
use yatb.ListFile.RoundTrip.{lines_text, IsLine, load-store}
use yatb.Platform.{Crypto, IsCipher, Disk}
use yatb.Prelude.{
  true, false, not, List, [], ◌∷◌, ◌++◌, some, map, init, ◌≡◌, refl, sym, arith, ◌∙◌, ap, ap₂,
  subst, append_assoc, append-nil, All,
}
use yatb.Strings.{upper}
use yatb.Text.{Bytes, is_empty, join, Lacks, same_comm}

write_ips-join : (ips : List Bytes) (daten : Bytes) → write_ips daten ips ≡ daten ++ join b',' ips
unfolding write_ips join
write_ips-join [] daten = sym (append-nil daten)
write_ips-join (ip ∷ []) daten = refl
write_ips-join (ip ∷ jp ∷ ips) daten = simp (write_ips-join (jp ∷ ips), append_assoc)

-- The line of an entry.
abbrev pub entry_line : FpEntry → Bytes
entry_line e = file_line e.fp e.comment e.user e.iplist

write_loop-lines :
    (es : List FpEntry) (daten : Bytes)
    → write_loop daten es ≡ daten ++ lines_text (map entry_line es)
unfolding write_loop lines_text
write_loop-lines [] daten = sym (append-nil daten)
write_loop-lines (e ∷ es) daten = simp (write_loop-lines es, write_ips-join, append_assoc)

-- An entry whose line can be read back: the fingerprint in upper case, no comma in a field, and no
-- field that breaks the line.
abbrev pub IsEntry : FpEntry → Type 0
IsEntry e =
    (upper e.fp 0 ≡ e.fp)
    × Lacks b',' e.fp
    × Lacks b',' e.comment
    × Lacks b',' e.user
    × All IsIp e.iplist
    × IsLine (entry_line e)

-- No fingerprint stands twice.
abbrev pub DistinctFps : List FpEntry → Type 0
DistinctFps [] = Unit {0}
DistinctFps (e ∷ es) = (has_fp e.fp es ≡ false) × DistinctFps es

-- The entry without the last of its addresses.
abbrev pub forget_last : FpEntry → FpEntry
forget_last e = record e { iplist = init e.iplist }

has_fp-forget : (t : Bytes) (es : List FpEntry) → has_fp t (map forget_last es) ≡ has_fp t es
unfolding has_fp
has_fp-forget t [] = refl
has_fp-forget t (e ∷ es) = ground (arith, has_fp-forget t es)

DistinctFps-middle :
    (done : List FpEntry) (e : FpEntry) (es : List FpEntry)
    → DistinctFps (done ++ e ∷ es)
    → has_fp e.fp done ≡ false
unfolding has_fp
DistinctFps-middle [] e es d = refl
DistinctFps-middle (f ∷ done) e es d = ground (
  arith,
  DistinctFps-middle done e es d.1,
  has_fp-append f.fp done (e ∷ es),
  d.0,
  same_comm f.fp e.fp,
)

abbrev insert_only : FpWhitelist → Bytes → FpWhitelist
insert_only w s = (insert w s).1

foldl-insert :
    (es done : List FpEntry)
    → All IsEntry es
    → DistinctFps (done ++ es)
    → foldl insert_only (record { list = map forget_last done }) (map entry_line es)
      ≡ (record { list = map forget_last (done ++ es) })
foldl-insert [] done h d = ap (λ t. record { list = map forget_last t }) (sym (append-nil done))
foldl-insert (e ∷ es) done h d =
    let (up, no_fp, no_comment, no_user, ips, line) = h.0 in
    let regroup = append_assoc done (e ∷ []) es in
    let w : FpWhitelist = record { list = map forget_last done } in
    let fresh : is_in_list w e.fp ≡ false =
      unfold is_in_list in has_fp-forget e.fp done ∙ DistinctFps-middle done e es d in
    let step : insert w (entry_line e) ≡ (1, record { list = map forget_last (done ++ e ∷ []) }) =
      ground (
        arith,
        insert_line w e.fp e.comment e.user e.iplist no_fp no_comment no_user ips,
        fresh,
        up,
        map-append forget_last done (e ∷ []),
      ) in
    ap (λ t. foldl insert_only t.1 (map entry_line es)) step
    ∙ foldl-insert es (done ++ e ∷ []) h.1 (subst DistinctFps (sym regroup) d)
    ∙ ap (λ t. record { list = map forget_last t }) regroup

lines : (es : List FpEntry) → All IsEntry es → All IsLine (map entry_line es)
lines [] h = tt
lines (e ∷ es) h = (h.0.5, lines es h.1)

-- A list that is written to a file is read back from it, by the program started anew, with every
-- entry less the last of its addresses, and nothing else lost. The name can be written to, the
-- fingerprints are in upper case and distinct, the fields hold no commas, line ends and NULs, no
-- address is empty, the key is the one that wrote the file, and `crypted_fpwhitelist` says whether
-- there is one.
pub read_list-write_list_forgets :
    (crypto : Crypto) (config : Settings) (disk : Disk) (filename key : Bytes) (w : FpWhitelist)
    → IsCipher crypto
    → disk.writable filename ≡ true
    → config.crypted_fpwhitelist ≡ not (is_empty key)
    → All IsEntry w.list
    → DistinctFps w.list
    → read_list crypto config
        (write_list crypto disk filename key w).0
        filename
        key
        (record { list = [] })
      ≡ some (true, record { list = map forget_last w.list })
unfolding read_list write_list
read_list-write_list_forgets crypto config disk filename key w c h k e d =
    let fresh : FpWhitelist = record { list = [] } in
    ap₂
      (λ crypted text.
        load insert_only crypto (store crypto disk filename key text).0 crypted filename key fresh)
      k (write_loop-lines w.list [])
    ∙ load-store insert_only crypto disk filename key (map entry_line w.list) fresh c h
        (lines w.list e)
    ∙ ap (λ t. some (true, t)) (foldl-insert w.list [] e d)
