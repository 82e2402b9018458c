-- ===== src/Hash/FileCache/Memo/Tests.antt =====
-- The memo of file digests on small inputs.
use sloff.Prelude.{
  ==-cases, Option, Str, Str_Eq, [], ap, arith, bytes, false, inl, inr, lookup, nat_Eq, none, refl,
  some, subst, sym, true, ℕ, ◌↔◌, ◌∙◌, ◌∷◌, ◌≡◌,
}
use sloff.Hash.FileCache.{ok}
use sloff.Hash.FileCache.Memo.{
  Stat, MemoEntry, Memo, Seen, entry_matches, digest, entry_is_racy, CacheFile, saved_entries, load,
  save_at,
}
use sloff.Hash.FileCache.Memo.Valid.{Shows, Valid, Right, Honest, digest-Valid, load-save_at}

-- Stands for SHA-256: it puts a byte in front.
abbrev mark : Str → Str
mark s = 1 ∷ s

abbrev go_file : Str
go_file = bytes "a.go"

abbrev old_stat : Stat
old_stat = record { size = 2; mtime = 5; ctime = 5; inode = 7; id_ok = true }

abbrev new_stat : Stat
new_stat = record { size = 2; mtime = 9000000000; ctime = 9000000000; inode = 7; id_ok = true }

-- A file system in which a file holds one byte, the time of its last change.
abbrev by_ctime : Str → Stat → Str
by_ctime path s = s.ctime ∷ []

abbrev memo : Memo
memo = (go_file, record { stat = old_stat; digest = 1 ∷ 5 ∷ [] }) ∷ []

abbrev untouched : Seen
untouched = record { before = ok old_stat; content = ok (5 ∷ []); after = ok old_stat }

abbrev rewritten : Seen
rewritten = record { before = ok new_stat; content = ok (9000000000 ∷ []); after = ok new_stat }

-- The file is written between the two stats.
abbrev racing : Seen
racing = record { before = ok new_stat; content = ok (6 ∷ []); after = ok old_stat }

served : digest mark go_file untouched memo ≡ (memo, ok (1 ∷ 5 ∷ []))
unfolding digest entry_matches
served = refl

hashed_again : digest mark go_file rewritten memo ≡ (
  (go_file, record { stat = new_stat; digest = 1 ∷ 9000000000 ∷ [] }) ∷ [],
  ok (1 ∷ 9000000000 ∷ []),
)
unfolding digest
hashed_again = refl

not_kept : digest mark go_file racing memo ≡ (memo, ok (1 ∷ 6 ∷ []))
unfolding digest
not_kept = refl

memo-Valid : Valid mark by_ctime true memo
unfolding lookup
memo-Valid p e h = elim (==-cases p go_file) [
  | inl (same, t) ↦
      let found : some (record { stat = old_stat; digest = 1 ∷ 5 ∷ [] }) ≡ some e = rw t at h in
      let entry : record { stat = old_stat; digest = 1 ∷ 5 ∷ [] } ≡ e = cc in
      subst (λ (x : MemoEntry). Shows true x.stat × (x.digest ≡ mark (by_ctime p x.stat))) entry
        ((refl, λ bad. cc), refl)
  | inr (other, f) ↦ absurd (grind arith)
]

rewritten-Honest : Honest by_ctime go_file rewritten
rewritten-Honest s b before after content =
    let stat : new_stat ≡ s = cc in
    let read : 9000000000 ∷ [] ≡ b = cc in sym read ∙ ap (λ (x : Stat). x.ctime ∷ []) stat

rewritten-Shows : (s : Stat) → rewritten.before ≡ ok s → Shows true s
rewritten-Shows s e = let stat : new_stat ≡ s = cc in subst (Shows true) stat (refl, λ bad. cc)

digest-Valid_example :
    Valid mark by_ctime true (digest mark go_file rewritten memo).0
    × Right mark by_ctime true go_file rewritten (digest mark go_file rewritten memo).1
digest-Valid_example =
    digest-Valid mark by_ctime true go_file rewritten memo rewritten-Shows rewritten-Honest
      memo-Valid

-- Stand for protobuf: the one file of the example is told apart.
abbrev encode_one : CacheFile → Str
encode_one f = []

abbrev decode_one : Str → Option CacheFile
decode_one s = some (1, memo)

abbrev start : ℕ
start = 9000000000

load-save_at_example :
    (lookup go_file
        (load encode_one decode_one (save_at encode_one decode_one true true start memo none).0)
      ≡ some (record { stat = old_stat; digest = 1 ∷ 5 ∷ [] }))
    ↔ ((lookup go_file memo ≡ some (record { stat = old_stat; digest = 1 ∷ 5 ∷ [] }))
        × (entry_is_racy (record { stat = old_stat; digest = 1 ∷ 5 ∷ [] }) start ≡ false))
unfolding saved_entries
load-save_at_example =
    load-save_at encode_one decode_one start memo none go_file
      (record { stat = old_stat; digest = 1 ∷ 5 ∷ [] }) refl (λ x. x, tt)
