-- ===== src/Tagging/Labels.antt =====
-- The label of a tag: its bytes, without the terminating zero.
use lightsd.Common.{ℕ, List}

abbrev pub Label : Type 0
Label = List ℕ
