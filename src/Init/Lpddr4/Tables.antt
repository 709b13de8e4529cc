-- ===== src/Init/Lpddr4/Tables.antt =====
-- The tables of `get_lpddr4_phy_init_sequence` of litedram/init.py.
use litedram.Base.{ℕ, Option, none, some, List, [], ◌∷◌, ◌==◌, if◌then◌else◌}
use litedram.Init.Table.{Table, lookup}

-- "disable" and "RZQ/n".
pub data Odt : Type 0 where
  disable : Odt
  rzq : ℕ → Odt

unfoldable pub odt_map : Odt → Option ℕ
odt_map Odt.disable = some 0b000
odt_map (Odt.rzq n) =
    lookup n ((1, 0b001) ∷ (2, 0b010) ∷ (3, 0b011) ∷ (4, 0b100) ∷ (5, 0b101) ∷ (6, 0b110) ∷ [])

-- The read latency without DBI, the write latency of set A, and nWR.
abbrev pub frequency_ranges : List (ℕ × ℕ × ℕ)
frequency_ranges =
    (6, 4, 6)
    ∷ (10, 6, 10)
    ∷ (14, 8, 16)
    ∷ (20, 10, 20)
    ∷ (24, 12, 24)
    ∷ (28, 14, 30)
    ∷ (32, 16, 34)
    ∷ (36, 18, 40)
    ∷ []

unfoldable nwr_loop : ℕ → ℕ → List (ℕ × ℕ × ℕ) → Option ℕ
nwr_loop cl cwl [] = none
nwr_loop cl cwl ((rl, wl, nwr) ∷ rows) =
    let rest = nwr_loop cl cwl rows in
    if rl == cl then (if wl == cwl then some nwr else none) else rest

-- A latency that no row has makes the lookup with the result fail: `none` too.
unfoldable pub get_nwr : ℕ → ℕ → Option ℕ
unfolding nwr_loop
get_nwr cl cwl = nwr_loop cl cwl frequency_ranges

abbrev pub nwr_to_mr1 : Table
nwr_to_mr1 =
    (6, 0b000)
    ∷ (10, 0b001)
    ∷ (16, 0b010)
    ∷ (20, 0b011)
    ∷ (24, 0b100)
    ∷ (30, 0b101)
    ∷ (34, 0b110)
    ∷ (40, 0b111)
    ∷ []

abbrev pub cl_to_mr2 : Table
cl_to_mr2 =
    (6, 0b000)
    ∷ (10, 0b001)
    ∷ (14, 0b010)
    ∷ (20, 0b011)
    ∷ (24, 0b100)
    ∷ (28, 0b101)
    ∷ (32, 0b110)
    ∷ (36, 0b111)
    ∷ []

abbrev pub cwl_to_mr2 : Table
cwl_to_mr2 =
    (4, 0b000)
    ∷ (6, 0b001)
    ∷ (8, 0b010)
    ∷ (10, 0b011)
    ∷ (12, 0b100)
    ∷ (14, 0b101)
    ∷ (16, 0b110)
    ∷ (18, 0b111)
    ∷ []

abbrev pub vref_range_0 : Table
vref_range_0 =
    (100, 0b000000)
    ∷ (104, 0b000001)
    ∷ (108, 0b000010)
    ∷ (112, 0b000011)
    ∷ (116, 0b000100)
    ∷ (120, 0b000101)
    ∷ (124, 0b000110)
    ∷ (128, 0b000111)
    ∷ (132, 0b001000)
    ∷ (136, 0b001001)
    ∷ (140, 0b001010)
    ∷ (144, 0b001011)
    ∷ (148, 0b001100)
    ∷ (152, 0b001101)
    ∷ (156, 0b001110)
    ∷ (160, 0b001111)
    ∷ (164, 0b010000)
    ∷ (168, 0b010001)
    ∷ (172, 0b010010)
    ∷ (176, 0b010011)
    ∷ (180, 0b010100)
    ∷ (184, 0b010101)
    ∷ (188, 0b010110)
    ∷ (192, 0b010111)
    ∷ (196, 0b011000)
    ∷ (200, 0b011001)
    ∷ (204, 0b011010)
    ∷ (208, 0b011011)
    ∷ (212, 0b011100)
    ∷ (216, 0b011101)
    ∷ (220, 0b011110)
    ∷ (224, 0b011111)
    ∷ (228, 0b100000)
    ∷ (232, 0b100001)
    ∷ (236, 0b100010)
    ∷ (240, 0b100011)
    ∷ (244, 0b100100)
    ∷ (248, 0b100101)
    ∷ (252, 0b100110)
    ∷ (256, 0b100111)
    ∷ (260, 0b101000)
    ∷ (264, 0b101001)
    ∷ (268, 0b101010)
    ∷ (272, 0b101011)
    ∷ (276, 0b101100)
    ∷ (280, 0b101101)
    ∷ (284, 0b101110)
    ∷ (288, 0b101111)
    ∷ (292, 0b110000)
    ∷ (296, 0b110001)
    ∷ (300, 0b110010)
    ∷ []

abbrev pub vref_range_1 : Table
vref_range_1 =
    (220, 0b000000)
    ∷ (224, 0b000001)
    ∷ (228, 0b000010)
    ∷ (232, 0b000011)
    ∷ (236, 0b000100)
    ∷ (240, 0b000101)
    ∷ (244, 0b000110)
    ∷ (248, 0b000111)
    ∷ (252, 0b001000)
    ∷ (256, 0b001001)
    ∷ (260, 0b001010)
    ∷ (264, 0b001011)
    ∷ (268, 0b001100)
    ∷ (272, 0b001101)
    ∷ (276, 0b001110)
    ∷ (280, 0b001111)
    ∷ (284, 0b010000)
    ∷ (288, 0b010001)
    ∷ (292, 0b010010)
    ∷ (296, 0b010011)
    ∷ (300, 0b010100)
    ∷ (304, 0b010101)
    ∷ (308, 0b010110)
    ∷ (312, 0b010111)
    ∷ (316, 0b011000)
    ∷ (320, 0b011001)
    ∷ (324, 0b011010)
    ∷ (328, 0b011011)
    ∷ (332, 0b011100)
    ∷ (336, 0b011101)
    ∷ (340, 0b011110)
    ∷ (344, 0b011111)
    ∷ (348, 0b100000)
    ∷ (352, 0b100001)
    ∷ (356, 0b100010)
    ∷ (360, 0b100011)
    ∷ (364, 0b100100)
    ∷ (368, 0b100101)
    ∷ (372, 0b100110)
    ∷ (376, 0b100111)
    ∷ (380, 0b101000)
    ∷ (384, 0b101001)
    ∷ (388, 0b101010)
    ∷ (392, 0b101011)
    ∷ (396, 0b101100)
    ∷ (400, 0b101101)
    ∷ (404, 0b101110)
    ∷ (408, 0b101111)
    ∷ (412, 0b110000)
    ∷ (416, 0b110001)
    ∷ (420, 0b110010)
    ∷ []

unfoldable pub vref_ranges : (range vref : ℕ) → Option ℕ
vref_ranges range vref =
    if range == 0
    then lookup vref vref_range_0
    else if range == 1
    then lookup vref vref_range_1
    else none
