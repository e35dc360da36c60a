-- ===== src/Parameter/Read/Loop.antt =====
-- iscsi_connection_parameter.c: the loop of `iscsi_connection_parameter_create` over entries.
use iscsi.Prelude.{
  ℕ, suc, ◌+◌, ◌-◌, ◌<◌, ◌≡◌, refl, sym, ap, ◌∙◌, arith, false, true, List, [], ◌∷◌, ◌==◌, length,
}
use iscsi.Prelude.Memory.{Memory, c_string}
use iscsi.Prelude.Outcome.{◌>>=◌, bind_ext}
use iscsi.State.{Parameter}
use iscsi.Parameter.Update.{update_information, create_loop}
use iscsi.Parameter.Entry.{Entry}
use iscsi.Parameter.Same.{update_information-Same}
use iscsi.Parameter.Read.{
  IsReadable, AreReadable, Stands, AllStand, entry_length, total_length, read_all, skip, in_key,
  in_value, key_char, same_key, same_value,
}

module _ (text : Memory) (o : ℕ) (e : Entry) (readable : IsReadable e)
    (stands : Stands text o e) where
  abbrev eq : ℕ
  eq = o + length e.key

  -- At the = the entry is read.
  equals-eq :
      (rounds : ℕ) (p : Parameter)
      → create_loop (suc rounds) eq o text p ≡ (
          update_information p (c_string e.key) e.value >>= λ q.
          create_loop rounds (suc eq) o text q)
  unfolding create_loop
  equals-eq rounds p =
      let named = readable.named in
      let full = (key_char text o e readable stands (eq - 1) (omega arith) (omega arith)).0 in
      let before : (text (eq - 1) == 0) ≡ false = ground arith in
      let equals = stands.equals in
      let here : (text eq == b'=') ≡ true = ground arith in
      rw
        (
          before,
          here,
          update_information-Same p _ _ _ _ (length e.key) e.size
              (same_key text o e readable stands) (same_value text o e readable stands),
        )
        refl

  -- From behind the first character of the key to behind the NUL.
  pub entry-eq :
      (rounds : ℕ) (p : Parameter)
      → create_loop ((length e.key - 1) + suc ((e.size + 1) + rounds)) (suc o) o text p ≡ (
          update_information p (c_string e.key) e.value >>= λ q.
          create_loop rounds (o + entry_length e) o text q)
  entry-eq rounds p =
      let named = readable.named in
      let place : suc (o + (length e.key - 1)) ≡ eq = omega arith in
      let behind : suc (eq + (e.size + 1)) ≡ o + entry_length e = omega arith in
      skip (length e.key - 1) (suc ((e.size + 1) + rounds)) o o text p
        (in_key text o e readable stands)
      ∙ rw place (equals-eq ((e.size + 1) + rounds) p)
      ∙ bind_ext (update_information p (c_string e.key) e.value) λ q.
        skip (e.size + 1) rounds eq o text q (in_value text o e readable stands) ∙ rw behind refl

  -- Behind a NUL the key begins.
  pub first-eq :
      (rounds key : ℕ) (p : Parameter)
      → 0 < o
      → text (o - 1) ≡ 0
      → create_loop (suc rounds) o key text p ≡ create_loop rounds (suc o) o text p
  unfolding create_loop
  first-eq rounds key p inner ends =
      let named = readable.named in
      let plain = (key_char text o e readable stands o (omega arith) (omega arith)).1 in
      let before : (text (o - 1) == 0) ≡ true = ground arith in
      let here : (text o == b'=') ≡ false = ground arith in rw (before, here) refl

pub loop-eq :
    (es : List Entry) (text : Memory) (o : ℕ) (e : Entry) (p : Parameter)
    → AreReadable (e ∷ es)
    → AllStand text o (e ∷ es)
    → create_loop (total_length (e ∷ es) - 1) (suc o) o text p ≡ read_all (e ∷ es) p
unfolding read_all create_loop
loop-eq [] text o e p readable stand =
    let named = readable.0.named in
    let rounds : total_length (e ∷ []) - 1 ≡ (length e.key - 1) + suc ((e.size + 1) + 0) =
      omega arith in
    ap (λ n. create_loop n (suc o) o text p) rounds ∙ entry-eq text o e readable.0 stand.0 0 p
loop-eq (next ∷ es) text o e p readable stand =
    let named = readable.0.named in
    let left = total_length (next ∷ es) - 1 in
    let there = o + entry_length e in
    let rounds : total_length (e ∷ next ∷ es) - 1
        ≡ (length e.key - 1) + suc ((e.size + 1) + suc left) =
      omega arith in
    let place : o + length e.key + 1 + e.size ≡ there - 1 = omega arith in
    ap (λ n. create_loop n (suc o) o text p) rounds
    ∙ entry-eq text o e readable.0 stand.0 (suc left) p
    ∙ bind_ext (update_information p (c_string e.key) e.value) λ q.
      first-eq text there next readable.1.0 stand.1.0 left o q (omega arith)
        (ap text (sym place) ∙ stand.0.ends)
      ∙ loop-eq es text there next q readable.1 stand.1
