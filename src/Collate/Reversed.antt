-- ===== src/Collate/Reversed.antt =====
-- source/collate.c: exchanging the data reverses every collation.
use libntfs.Prelude.{◌≡◌, Option}
use Prim.Native.Nat.{Ordering}
use libntfs.Names.Order.{reversed}
use libntfs.Collate.{Bytes, Collated, collates}

abbrev Reverses : (Bytes → Bytes → Collated) → Type 0
Reverses collate =
    (data1 data2 : Bytes) (o : Ordering)
    → collate data1 data2 ≡ collates o
    → collate data2 data1 ≡ collates (reversed o)
