-- ===== src/Codec/Base64/Tables.antt =====
-- The tables of c/src/code/base64.c.
use code_notebook.Base.{ℕ, List, [], ◌∷◌}

-- An entry of base64_reverse_table: -2, -1, or the value of a letter.
pub data Entry : Type 0 where
  bad space : Entry
  digit : ℕ → Entry

unfoldable pub base64_table : List ℕ
base64_table =
    65 ∷ 66 ∷ 67 ∷ 68 ∷ 69 ∷ 70 ∷ 71 ∷ 72 ∷ 73 ∷ 74 ∷ 75 ∷ 76 ∷ 77 ∷ 78 ∷ 79 ∷ 80 ∷ 81 ∷ 82 ∷ 83
    ∷ 84 ∷ 85 ∷ 86 ∷ 87 ∷ 88 ∷ 89 ∷ 90 ∷ 97 ∷ 98 ∷ 99 ∷ 100 ∷ 101 ∷ 102 ∷ 103 ∷ 104 ∷ 105 ∷ 106
    ∷ 107 ∷ 108 ∷ 109 ∷ 110 ∷ 111 ∷ 112 ∷ 113 ∷ 114 ∷ 115 ∷ 116 ∷ 117 ∷ 118 ∷ 119 ∷ 120 ∷ 121 ∷ 122
    ∷ 48 ∷ 49 ∷ 50 ∷ 51 ∷ 52 ∷ 53 ∷ 54 ∷ 55 ∷ 56 ∷ 57 ∷ 43 ∷ 47 ∷ 0 ∷ []

unfoldable pub base64_reverse_table : List Entry
base64_reverse_table =
    bad
    ∷ bad
    ∷ bad
    ∷ bad
    ∷ bad
    ∷ bad
    ∷ bad
    ∷ bad
    ∷ bad
    ∷ space
    ∷ space
    ∷ bad
    ∷ bad
    ∷ space
    ∷ bad
    ∷ bad
    ∷ bad
    ∷ bad
    ∷ bad
    ∷ bad
    ∷ bad
    ∷ bad
    ∷ bad
    ∷ bad
    ∷ bad
    ∷ bad
    ∷ bad
    ∷ bad
    ∷ bad
    ∷ bad
    ∷ bad
    ∷ bad
    ∷ space
    ∷ bad
    ∷ bad
    ∷ bad
    ∷ bad
    ∷ bad
    ∷ bad
    ∷ bad
    ∷ bad
    ∷ bad
    ∷ bad
    ∷ digit 62
    ∷ bad
    ∷ bad
    ∷ bad
    ∷ digit 63
    ∷ digit 52
    ∷ digit 53
    ∷ digit 54
    ∷ digit 55
    ∷ digit 56
    ∷ digit 57
    ∷ digit 58
    ∷ digit 59
    ∷ digit 60
    ∷ digit 61
    ∷ bad
    ∷ bad
    ∷ bad
    ∷ bad
    ∷ bad
    ∷ bad
    ∷ bad
    ∷ digit 0
    ∷ digit 1
    ∷ digit 2
    ∷ digit 3
    ∷ digit 4
    ∷ digit 5
    ∷ digit 6
    ∷ digit 7
    ∷ digit 8
    ∷ digit 9
    ∷ digit 10
    ∷ digit 11
    ∷ digit 12
    ∷ digit 13
    ∷ digit 14
    ∷ digit 15
    ∷ digit 16
    ∷ digit 17
    ∷ digit 18
    ∷ digit 19
    ∷ digit 20
    ∷ digit 21
    ∷ digit 22
    ∷ digit 23
    ∷ digit 24
    ∷ digit 25
    ∷ bad
    ∷ bad
    ∷ bad
    ∷ bad
    ∷ bad
    ∷ bad
    ∷ digit 26
    ∷ digit 27
    ∷ digit 28
    ∷ digit 29
    ∷ digit 30
    ∷ digit 31
    ∷ digit 32
    ∷ digit 33
    ∷ digit 34
    ∷ digit 35
    ∷ digit 36
    ∷ digit 37
    ∷ digit 38
    ∷ digit 39
    ∷ digit 40
    ∷ digit 41
    ∷ digit 42
    ∷ digit 43
    ∷ digit 44
    ∷ digit 45
    ∷ digit 46
    ∷ digit 47
    ∷ digit 48
    ∷ digit 49
    ∷ digit 50
    ∷ digit 51
    ∷ bad
    ∷ bad
    ∷ bad
    ∷ bad
    ∷ bad
    ∷ bad
    ∷ bad
    ∷ bad
    ∷ bad
    ∷ bad
    ∷ bad
    ∷ bad
    ∷ bad
    ∷ bad
    ∷ bad
    ∷ bad
    ∷ bad
    ∷ bad
    ∷ bad
    ∷ bad
    ∷ bad
    ∷ bad
    ∷ bad
    ∷ bad
    ∷ bad
    ∷ bad
    ∷ bad
    ∷ bad
    ∷ bad
    ∷ bad
    ∷ bad
    ∷ bad
    ∷ bad
    ∷ bad
    ∷ bad
    ∷ bad
    ∷ bad
    ∷ bad
    ∷ bad
    ∷ bad
    ∷ bad
    ∷ bad
    ∷ bad
    ∷ bad
    ∷ bad
    ∷ bad
    ∷ bad
    ∷ bad
    ∷ bad
    ∷ bad
    ∷ bad
    ∷ bad
    ∷ bad
    ∷ bad
    ∷ bad
    ∷ bad
    ∷ bad
    ∷ bad
    ∷ bad
    ∷ bad
    ∷ bad
    ∷ bad
    ∷ bad
    ∷ bad
    ∷ bad
    ∷ bad
    ∷ bad
    ∷ bad
    ∷ bad
    ∷ bad
    ∷ bad
    ∷ bad
    ∷ bad
    ∷ bad
    ∷ bad
    ∷ bad
    ∷ bad
    ∷ bad
    ∷ bad
    ∷ bad
    ∷ bad
    ∷ bad
    ∷ bad
    ∷ bad
    ∷ bad
    ∷ bad
    ∷ bad
    ∷ bad
    ∷ bad
    ∷ bad
    ∷ bad
    ∷ bad
    ∷ bad
    ∷ bad
    ∷ bad
    ∷ bad
    ∷ bad
    ∷ bad
    ∷ bad
    ∷ bad
    ∷ bad
    ∷ bad
    ∷ bad
    ∷ bad
    ∷ bad
    ∷ bad
    ∷ bad
    ∷ bad
    ∷ bad
    ∷ bad
    ∷ bad
    ∷ bad
    ∷ bad
    ∷ bad
    ∷ bad
    ∷ bad
    ∷ bad
    ∷ bad
    ∷ bad
    ∷ bad
    ∷ bad
    ∷ bad
    ∷ bad
    ∷ bad
    ∷ bad
    ∷ bad
    ∷ bad
    ∷ bad
    ∷ bad
    ∷ bad
    ∷ bad
    ∷ bad
    ∷ bad
    ∷ []
