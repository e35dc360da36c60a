-- ===== src/Server/Threads/Shared/Transmits.antt =====
-- main.c and iscsi_buffer.c: the steps of `start_transmit` keep the response buffer sound.
use iscsi.Prelude.{
  ℕ, ◌+◌, ◌-◌, ◌≤◌, ◌≡◌, refl, sym, ap, ◌∙◌, arith, true, false, Bool-cases, inl, inr, List, [],
  ◌∷◌, ◌++◌, append_assoc, concat, concat-append, Bool,
}
use mathlib.Core.List.{append-nil}
use iscsi.Prelude.Word.{add}
use iscsi.Prelude.Memory.{bytes, bytes_ext, bytes-add, AreBytes}
use iscsi.Buffer.{Buffer, iscsi_buffer_release_lock, shift_down}
use iscsi.Buffer.Contents.{contents}
use iscsi.Buffer.Flush.{rounds_left, shift_down_lem, shift_down-AreBytes}
use iscsi.Pdu.{iscsi_pdu_valid}
use iscsi.Pdu.Length.{valid_iff, ArePdus-append}
use iscsi.Server.Threads.Shared.{
  Shared, Writer, serving, wanting, checking, writing, Sender, looking, found, stopped, asking,
  sending, sent, flushing, clearing, moving, transmit_at,
}
use iscsi.Server.Threads.Shared.Sound.{
  writer_holds, sender_holds, HasRoom, HasFront, unsent, IsSound,
}
use iscsi.Server.Threads.Shared.Safe.{Safe, acquire-Safe}

shorter-HasRoom : (w : Writer) (used less : ℕ) → less ≤ used → HasRoom w used → HasRoom w less
shorter-HasRoom serving used less le room = tt
shorter-HasRoom (wanting n) used less le room = room
shorter-HasRoom (checking n) used less le room = room
shorter-HasRoom (writing n) used less le room = omega arith

-- The PDU at the front, and what is behind it.
front-rest :
    (b : Buffer) (n : ℕ)
    → n ≤ b.length
    → bytes b.contents 0 n ++ bytes b.contents n (b.length - n) ≡ contents b
front-rest b n le =
    let total : b.length ≡ n + (b.length - n) = omega arith in
    let place : 0 + n ≡ n = omega arith in
    ap (λ q. bytes b.contents 0 n ++ bytes b.contents q (b.length - n)) (sym place)
    ∙ sym (bytes-add b.contents 0 n (b.length - n))
    ∙ ap (bytes b.contents 0) (sym total)

bytes-moved :
    (b : Buffer) (n : ℕ)
    → bytes (shift_down (b.length - n) 0 n b.contents) 0 (b.length - n)
      ≡ bytes b.contents n (b.length - n)
bytes-moved b n =
    let rest = b.length - n in
    bytes_ext (shift_down rest 0 n b.contents) b.contents 0 n rest
      λ i lt. grind (arith, (shift_down_lem rest 0 n b.contents i).0 (omega arith) (omega arith))

module _ (before first : List ℕ) where
  abbrev Sound : Shared → Type 0
  Sound = IsSound before first

  abbrev at : Sender → Shared → Shared
  at t s = record s { sender = t }

  -- A step that sends nothing, of a buffer that gets no longer.
  step-IsSound :
      (s : Shared) (c : Buffer) (t u : Sender)
      → Sound (at t s)
      → writer_holds s.writer + sender_holds u + c.lock ≡ 1
      → c.length ≤ s.buffer.length
      → AreBytes c.contents
      → HasFront u c
      → unsent u c ≡ unsent t s.buffer
      → Sound (record s { buffer = c; sender = u })
  step-IsSound s c t u sound once le are front same = record {
    once = once;
    fits = let size = sound.fits in omega arith;
    are = are;
    room = shorter-HasRoom s.writer s.buffer.length c.length le sound.room;
    front = front;
    pdus = sound.pdus;
    whole = sound.whole;
    leaves = sound.leaves;
    stream = ap (λ r. s.transmitted ++ r) same ∙ sound.stream;
  }

  sent-IsSound :
      (s : Shared) (n : ℕ)
      → Sound (at (sending n) s)
      → Sound
          (record s { sender = sent n; transmitted = s.transmitted ++ bytes s.buffer.contents 0 n })
  sent-IsSound s n sound =
      let (le, is) = sound.front in
      let pdu = bytes s.buffer.contents 0 n in
      record {
        once = sound.once;
        fits = sound.fits;
        are = sound.are;
        room = sound.room;
        front = le;
        pdus = sound.pdus ++ pdu ∷ [];
        whole =
            ArePdus-append sound.pdus (pdu ∷ []) sound.whole
              ((s.buffer.contents, sound.are, ap (bytes s.buffer.contents 0) is), tt);
        leaves =
            ap (λ r. r ++ pdu) sound.leaves
            ∙ append_assoc before (concat sound.pdus) pdu
            ∙ ap (λ r. before ++ r)
                (ap (λ r. concat sound.pdus ++ r) (sym (append-nil pdu))
                  ∙ sym (concat-append sound.pdus (pdu ∷ [])));
        stream =
            append_assoc s.transmitted pdu (bytes s.buffer.contents n (s.buffer.length - n))
            ∙ ap (λ r. s.transmitted ++ r) (front-rest s.buffer n le)
            ∙ sound.stream;
      }

  looked-Safe :
      (s : Shared) (success : Bool)
      → Sound (at looking s)
      → Safe Sound (transmit_at looking success (at looking s))
  unfolding transmit_at
  looked-Safe s success sound =
      let size = sound.fits in
      elim (Bool-cases (iscsi_pdu_valid s.buffer.contents s.buffer.length)) [
        | inl whole ↦ rw whole (
            step-IsSound s s.buffer looking found sound sound.once (omega arith) sound.are
              ((valid_iff s.buffer.contents s.buffer.length sound.are (omega arith)).0 whole) refl)
        | inr part ↦ rw part sound
      ]

  moved-Safe :
      (s : Shared) (n : ℕ) (success : Bool)
      → Sound (at (moving n) s)
      → Safe Sound (transmit_at (moving n) success (at (moving n) s))
  unfolding transmit_at iscsi_buffer_release_lock
  moved-Safe s n success sound =
      let (rounds, left, enough) = rounds_left s.buffer.length n sound.front sound.fits in
      simp (rounds, left)
        (step-IsSound s _ (moving n) looking sound (omega (arith, sound.once)) (omega arith)
          (shift_down-AreBytes (s.buffer.length - n) 0 n s.buffer.contents sound.are) tt
          (bytes-moved s.buffer n))

  pub transmit-Safe :
      (t : Sender) (s : Shared) (success : Bool)
      → Sound (at t s)
      → Safe Sound (transmit_at t success (at t s))
  unfolding transmit_at iscsi_buffer_release_lock
  transmit-Safe looking s success sound = looked-Safe s success sound
  transmit-Safe found s success sound =
      step-IsSound s s.buffer found (asking _) sound sound.once (omega arith) sound.are
        (sound.front, refl) refl
  transmit-Safe (asking n) s success sound =
      acquire-Safe Sound s.buffer _ (omega (arith, sound.once)) λ free.
        step-IsSound s _ (asking n) (sending n) sound (omega (arith, sound.once)) (omega arith)
          sound.are sound.front refl
  transmit-Safe (sending n) s true sound = sent-IsSound s n sound
  transmit-Safe (sending n) s false sound =
      step-IsSound s _ (sending n) stopped sound sound.once (omega arith) sound.are tt refl
  transmit-Safe (sent n) s success sound =
      let size = sound.fits in
      let le = sound.front in
      let same : add s.buffer.length 0 ≡ s.buffer.length = omega arith in
      step-IsSound s _ (sent n) (flushing n) sound (omega (arith, sound.once)) (omega arith)
        sound.are (omega arith) (ap (λ q. bytes s.buffer.contents n (q - n)) same)
  transmit-Safe (flushing n) s success sound =
      let (rounds, left, enough) = rounds_left s.buffer.length n sound.front sound.fits in
      rw enough (
        step-IsSound s s.buffer (flushing n) (clearing n) sound sound.once (omega arith) sound.are
          sound.front refl)
  transmit-Safe (clearing n) s success sound =
      acquire-Safe Sound s.buffer _ (omega (arith, sound.once)) λ free.
        step-IsSound s _ (clearing n) (moving n) sound (omega (arith, sound.once)) (omega arith)
          sound.are sound.front refl
  transmit-Safe (moving n) s success sound = moved-Safe s n success sound
  transmit-Safe stopped s success sound = sound
