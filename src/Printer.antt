-- ===== src/Printer.antt =====
-- src/bpfilter/cgen/printer.c: the messages that generated code prints, kept in one string.
pub mod Packed
use bpfilter_study.Base.{
  ℕ, Bool, List, [], ◌∷◌, ◌+◌, ◌++◌, Option, length, suc, true, ◌==◌, if◌then◌else◌, none, some,
  zero, ◌&&◌, false,
}
use bpfilter_study.Program.{PrinterMsg}

-- `_bf_printer_total_size()`: where the last message ends.
unfoldable pub printer_total_size : List PrinterMsg → ℕ
printer_total_size [] = 0
printer_total_size (m ∷ []) = m.offset + m.len
printer_total_size (m ∷ m' ∷ ms) = printer_total_size (m' ∷ ms)

abbrev pub str_eq : List ℕ → List ℕ → Bool
str_eq [] [] = true
str_eq (a ∷ s) (b ∷ t) = a == b && str_eq s t
str_eq _ _ = false

-- The search of `bf_printer_add_msg()` for the same text.
unfoldable pub printer_find : List PrinterMsg → List ℕ → Option PrinterMsg
printer_find [] str = none
printer_find (m ∷ ms) str = if str_eq m.str str then some m else printer_find ms str

-- The text comes with no terminating zero; its length counts one.
abbrev pub new_msg : List PrinterMsg → List ℕ → PrinterMsg
new_msg msgs str = record { offset = printer_total_size msgs; len = length str + 1; str = str }

-- `bf_printer_add_msg()`: the message, and the printer behind it. A message of 24 bytes, a copy of
-- the text and a list node are allocated; NULL is `none`.
unfoldable pub printer_add_msg :
    (ℕ → Bool) → List PrinterMsg → List ℕ → Option (PrinterMsg × List PrinterMsg)
printer_add_msg alloc msgs str = elim (printer_find msgs str) [
  | some m ↦ some (m, msgs)
  | none ↦
      if alloc 24 && alloc (length str + 1)
      then some (new_msg msgs str, msgs ++ new_msg msgs str ∷ [])
      else none
]

abbrev pub overwrite : List ℕ → ℕ → List ℕ → List ℕ
overwrite buf zero [] = buf
overwrite buf zero (b ∷ bs) = elim buf [ [] ↦ [] | _ ∷ rest ↦ b ∷ overwrite rest zero bs ]
overwrite [] (suc n) bs = []
overwrite (x ∷ buf) (suc n) bs = x ∷ overwrite buf n bs

abbrev pub zeros : ℕ → List ℕ
zeros zero = []
zeros (suc n) = 0 ∷ zeros n

-- `memcpy()` of each message to its offset.
unfoldable pub copy_msgs : List ℕ → List PrinterMsg → List ℕ
copy_msgs buf [] = buf
copy_msgs buf (m ∷ ms) = copy_msgs (overwrite buf m.offset (m.str ++ 0 ∷ [])) ms

-- `bf_printer_assemble()`; the buffer that `malloc()` gives is taken to be zero.
unfoldable pub printer_assemble : (ℕ → Bool) → List PrinterMsg → Option (List ℕ)
printer_assemble alloc msgs =
    let size = printer_total_size msgs in
    if size == 0
    then (if alloc 1 then some (0 ∷ []) else none)
    else if alloc size
    then some (copy_msgs (zeros size) msgs)
    else none
