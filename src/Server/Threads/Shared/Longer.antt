-- ===== src/Server/Threads/Shared/Longer.antt =====
-- iscsi_buffer.c: the holder of the lock who puts bytes behind those of the response buffer keeps
-- the buffer sound.
use iscsi.Prelude.{ℕ, ◌+◌, ◌-◌, ◌≤◌, ◌<◌, ◌≡◌, refl, sym, ap, ◌∙◌, arith, List, ◌++◌, append_assoc}
use mathlib.Core.List.{append-nil}
use mathlib.Core.Path.{ap₂}
use iscsi.Prelude.Memory.{Memory, AreBytes, bytes, bytes_ext, bytes-add}
use iscsi.Buffer.{Buffer, iscsi_buffer_size}
use iscsi.Buffer.Contents.{contents}
use iscsi.Pdu.{iscsi_pdu_length}
use iscsi.Pdu.Length.{length_bounds}
use iscsi.Server.Threads.Shared.{
  Shared, Writer, Sender, looking, found, stopped, asking, sending, sent, flushing, clearing,
  moving,
}
use iscsi.Server.Threads.Shared.Sound.{
  writer_holds, sender_holds, HasRoom, HasFront, unsent, IsSound,
}

-- The two memories hold the same bytes below `n`.
abbrev Agree : Memory → Memory → ℕ → Type 0
Agree m k n = (i : ℕ) → i < n → m i ≡ k i

pdu_length_ext : (m k : Memory) → Agree m k 48 → iscsi_pdu_length m ≡ iscsi_pdu_length k
unfolding iscsi_pdu_length
pdu_length_ext m k h =
    rw (h 4 (omega arith), h 5 (omega arith), h 6 (omega arith), h 7 (omega arith)) refl

length_stays :
    (m k : Memory) (n : ℕ)
    → AreBytes m
    → Agree m k n
    → iscsi_pdu_length m ≤ n
    → iscsi_pdu_length m ≡ iscsi_pdu_length k
length_stays m k n are h whole = pdu_length_ext m k λ i lt. h i (omega (arith, length_bounds m are))

-- What is put behind the bytes that are there changes nothing for the transmitter.
front_stays :
    (t : Sender) (b c : Buffer)
    → AreBytes b.contents
    → b.length ≤ c.length
    → Agree b.contents c.contents b.length
    → HasFront t b
    → HasFront t c
front_stays looking b c are le h f = tt
front_stays stopped b c are le h f = tt
front_stays found b c are le h f =
    omega (arith, length_stays b.contents c.contents b.length are h f)
front_stays (asking n) b c are le h f =
    omega (arith, length_stays b.contents c.contents b.length are h (omega arith))
front_stays (sending n) b c are le h f =
    omega (arith, length_stays b.contents c.contents b.length are h (omega arith))
front_stays (sent n) b c are le h f = omega arith
front_stays (flushing n) b c are le h f = omega arith
front_stays (clearing n) b c are le h f = omega arith
front_stays (moving n) b c are le h f = omega arith

-- The bytes from `p` up to the end, with `k` more behind them.
bytes_longer :
    (b c : Buffer) (p k : ℕ)
    → p ≤ b.length
    → c.length ≡ b.length + k
    → Agree b.contents c.contents b.length
    → bytes c.contents p (c.length - p)
      ≡ bytes b.contents p (b.length - p) ++ bytes c.contents b.length k
bytes_longer b c p k le longer h =
    let size : c.length - p ≡ (b.length - p) + k = omega arith in
    let place : p + (b.length - p) ≡ b.length = omega arith in
    ap (bytes c.contents p) size
    ∙ bytes-add c.contents p (b.length - p) k
    ∙ ap₂ ◌++◌
        (bytes_ext c.contents b.contents p p (b.length - p) λ i lt. sym (h (p + i) (omega arith)))
        (ap (λ q. bytes c.contents q k) place)

contents_longer :
    (b c : Buffer) (k : ℕ)
    → c.length ≡ b.length + k
    → Agree b.contents c.contents b.length
    → contents c ≡ contents b ++ bytes c.contents b.length k
contents_longer b c k longer h =
    let place : 0 + b.length ≡ b.length = omega arith in
    ap (bytes c.contents 0) longer
    ∙ bytes-add c.contents 0 b.length k
    ∙ ap₂ ◌++◌ (bytes_ext c.contents b.contents 0 0 b.length λ i lt. grind (arith, h i lt))
        (ap (λ q. bytes c.contents q k) place)

unsent_longer :
    (t : Sender) (b c : Buffer) (k : ℕ)
    → c.length ≡ b.length + k
    → Agree b.contents c.contents b.length
    → HasFront t b
    → unsent t c ≡ unsent t b ++ bytes c.contents b.length k
unsent_longer (sent n) b c k longer h f = bytes_longer b c n k f longer h
unsent_longer (flushing n) b c k longer h f = bytes_longer b c n k f longer h
unsent_longer (clearing n) b c k longer h f = bytes_longer b c n k f longer h
unsent_longer (moving n) b c k longer h f = bytes_longer b c n k f longer h
unsent_longer _ b c k longer h f = contents_longer b c k longer h

module _ (before first : List ℕ) where
  abbrev Sound : Shared → Type 0
  Sound s = IsSound before first s

  -- The holder of the lock, or who has just released it, leaves the bytes that are there, and puts
  -- `k` behind them.
  pub longer-IsSound :
      (s : Shared) (c : Buffer) (w : Writer) (k : ℕ)
      → Sound s
      → writer_holds w + sender_holds s.sender + c.lock ≡ 1
      → c.length ≡ s.buffer.length + k
      → c.length ≤ iscsi_buffer_size
      → AreBytes c.contents
      → HasRoom w c.length
      → Agree s.buffer.contents c.contents s.buffer.length
      → Sound (record s {
        buffer = c;
        writer = w;
        produced = s.produced ++ bytes c.contents s.buffer.length k;
      })
  longer-IsSound s c w k sound once longer fits are room agree = record {
    once = once;
    fits = fits;
    are = are;
    room = room;
    front = front_stays s.sender s.buffer c sound.are (omega arith) agree sound.front;
    pdus = sound.pdus;
    whole = sound.whole;
    leaves = sound.leaves;
    stream =
        let new = bytes c.contents s.buffer.length k in
        ap (λ r. s.transmitted ++ r) (unsent_longer s.sender s.buffer c k longer agree sound.front)
        ∙ sym (append_assoc s.transmitted (unsent s.sender s.buffer) new)
        ∙ ap (λ r. r ++ new) sound.stream
        ∙ append_assoc first s.produced new;
  }

  pub same-IsSound :
      (s : Shared) (c : Buffer) (w : Writer)
      → Sound s
      → writer_holds w + sender_holds s.sender + c.lock ≡ 1
      → c.length ≡ s.buffer.length
      → AreBytes c.contents
      → HasRoom w c.length
      → Agree s.buffer.contents c.contents s.buffer.length
      → Sound (record s { buffer = c; writer = w })
  same-IsSound s c w sound once same are room agree =
      let moved =
        longer-IsSound s c w 0 sound once (omega arith) (let size = sound.fits in omega arith) are
          room agree in
      rw (append-nil s.produced) at moved
