-- ===== src/Printer/Packed.antt =====
-- The messages of a printer lie one behind the other.
use bpfilter_study.Base.{
  ℕ, List, Bool, Option, [], some, ◌∷◌, ◌≡◌, ◌+◌, arith, length, none, ◌++◌, refl, false, ◌&&◌,
}
use bpfilter_study.Printer.{printer_find, printer_total_size}
use bpfilter_study.Program.{PrinterMsg}

-- From the offset on, with no gap, and with the length of their text and its terminating zero.
pub data IsPacked : ℕ → List PrinterMsg → Type 0 where
  none_left : {at : ℕ} → IsPacked at []
  one_more :
      {at : ℕ} {m : PrinterMsg} {ms : List PrinterMsg}
      → m.offset ≡ at
      → m.len ≡ length m.str + 1
      → IsPacked (at + m.len) ms
      → IsPacked at (m ∷ ms)

abbrev pub total_len : List PrinterMsg → ℕ
total_len [] = 0
total_len (m ∷ ms) = m.len + total_len ms

total_size-IsPacked :
    (at : ℕ) (m : PrinterMsg) (ms : List PrinterMsg)
    → IsPacked at (m ∷ ms)
    → printer_total_size (m ∷ ms) ≡ at + total_len (m ∷ ms)
unfolding printer_total_size
total_size-IsPacked at m [] (one_more eo el r) = omega (arith, eo)
total_size-IsPacked at m (m' ∷ ms) (one_more eo el r) =
    omega (arith, total_size-IsPacked (at + m.len) m' ms r)

-- The total size of a packed printer is the sum of the lengths.
pub printer_total_size-IsPacked :
    (msgs : List PrinterMsg) → IsPacked 0 msgs → printer_total_size msgs ≡ total_len msgs
unfolding printer_total_size
printer_total_size-IsPacked [] h = refl
printer_total_size-IsPacked (m ∷ ms) h = omega (arith, total_size-IsPacked 0 m ms h)

-- The message that was there and an unchanged printer, or a new one behind all others.
pub data Kept (str : List ℕ) (old : List PrinterMsg) (msg : PrinterMsg)
    : List PrinterMsg → Type 0 where
  unchanged : printer_find old str ≡ some msg → Kept str old msg old
  appended : printer_find old str ≡ none → msg.str ≡ str → Kept str old msg (old ++ msg ∷ [])

-- A message that has been asked for, and the printer behind it: the earlier messages are kept, all
-- lie one behind the other, and the next search for the text finds the message.
pub record Added (str : List ℕ) (old : List PrinterMsg) (msg : PrinterMsg) (msgs : List PrinterMsg)
    : Type 0 where
  pub kept : Kept str old msg msgs
  pub packed : IsPacked 0 msgs
  pub found : printer_find msgs str ≡ some msg

-- Added, or NULL because an allocation fails.
pub data AddedOr (alloc : ℕ → Bool) (old : List PrinterMsg) (str : List ℕ)
    : Option (PrinterMsg × List PrinterMsg) → Type 0 where
  added :
      {msg : PrinterMsg} {msgs : List PrinterMsg}
      → Added str old msg msgs
      → AddedOr alloc old str (some (msg, msgs))
  no_memory :
      printer_find old str ≡ none
      → (alloc 24 && alloc (length str + 1)) ≡ false
      → AddedOr alloc old str none
