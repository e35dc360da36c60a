-- ===== src/Server/Threads/Shared/Writes.antt =====
-- iscsi_buffer.c: the steps of the thread that serves PDUs keep the response buffer sound.
use iscsi.Prelude.{ℕ, ◌+◌, ◌≤◌, ◌≡◌, refl, arith, true, false, Bool-cases, inl, inr, List, ltb}
use iscsi.Prelude.Word.{slt, sub, add, IsByte, is_negative}
use iscsi.Buffer.{iscsi_buffer_size, iscsi_buffer_free_space, iscsi_buffer_release_lock, claim}
use iscsi.Server.Threads.Shared.{
  Shared, Writer, serving, wanting, checking, writing, ask_at, put_at, write_at,
}
use iscsi.Server.Threads.Shared.Sound.{IsSound, IsWithin}
use iscsi.Server.Threads.Shared.Safe.{Safe, acquire-Safe}
use iscsi.Server.Threads.Shared.Longer.{longer-IsSound, same-IsSound}

module _ (before first : List ℕ) where
  abbrev Sound : Shared → Type 0
  Sound = IsSound before first

  abbrev at : Writer → Shared → Shared
  at w s = record s { writer = w }

  asked-IsSound :
      (s : Shared) (n : ℕ) → Sound (at serving s) → n ≤ iscsi_buffer_size → Sound (at (wanting n) s)
  asked-IsSound s n sound small =
      same-IsSound before first (at serving s) s.buffer (wanting n) sound sound.once refl sound.are
        small (λ i lt. refl)

  pub ask-Safe :
      (w : Writer) (s : Shared) (n : ℕ)
      → Sound (at w s)
      → n ≤ iscsi_buffer_size
      → Safe Sound (ask_at w n (at w s))
  unfolding ask_at
  ask-Safe serving s n sound small =
      let fits : slt iscsi_buffer_size n ≡ false = ground arith in
      rw fits (asked-IsSound s n sound small)
  ask-Safe _ s n sound small = sound

  pub put-Safe :
      (w : Writer) (s : Shared) (place v : ℕ)
      → Sound (at w s)
      → IsByte v
      → IsWithin w s.buffer.length place
      → Safe Sound (put_at w place v (at w s))
  unfolding put_at
  put-Safe (writing n) s place v sound byte within =
      let room = sound.room in
      let inside : ltb place iscsi_buffer_size ≡ true = ground arith in
      rw inside (
        same-IsSound before first (at (writing n) s) _ (writing n) sound sound.once refl
          (λ k. ground (arith, sound.are k)) sound.room (λ k lt. ground arith))
  put-Safe _ s place v sound byte within = sound

  checked-Safe :
      (s : Shared) (n : ℕ)
      → Sound (at (checking n) s)
      → Safe Sound (write_at (checking n) (at (checking n) s))
  unfolding write_at claim iscsi_buffer_release_lock iscsi_buffer_free_space
  checked-Safe s n sound =
      let small = sound.room in
      let size = sound.fits in
      let natural : is_negative n ≡ false = ground arith in
      elim (Bool-cases (slt (sub iscsi_buffer_size s.buffer.length) n)) [
        | inl full ↦ rw full (
            same-IsSound before first (at (checking n) s) _ (wanting n) sound
              (omega (arith, sound.once)) (omega arith) sound.are small (λ k lt. refl))
        | inr free ↦
            rw (free, natural)
              (same-IsSound before first (at (checking n) s) _ (writing n) sound sound.once refl
                (λ k. ground (arith, sound.are k)) (ground (arith, free)) (λ k lt. ground arith))
      ]

  pub write-Safe : (w : Writer) (s : Shared) → Sound (at w s) → Safe Sound (write_at w (at w s))
  unfolding write_at iscsi_buffer_release_lock
  write-Safe serving s sound = sound
  write-Safe (wanting n) s sound = acquire-Safe Sound s.buffer _ (omega (arith, sound.once)) λ free.
      same-IsSound before first (at (wanting n) s) _ (checking n) sound (omega (arith, sound.once))
        refl sound.are sound.room (λ i lt. refl)
  write-Safe (checking n) s sound = checked-Safe s n sound
  write-Safe (writing n) s sound =
      let room = sound.room in
      let sum : add s.buffer.length n ≡ s.buffer.length + n = omega arith in
      longer-IsSound before first (at (writing n) s) _ serving n sound (omega (arith, sound.once))
        sum (omega arith) sound.are tt (λ i lt. refl)
