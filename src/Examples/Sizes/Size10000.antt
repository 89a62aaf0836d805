-- ===== src/Examples/Sizes/Size10000.antt =====
-- The results at messages of 10000 bytes.
use rabbitmq_perf_test.Base.{List, [], ◌∷◌, ◌++◌}
use rabbitmq_perf_test.Js.Number.{Number, of_ℕ}
use rabbitmq_perf_test.Js.Value.{Value}
use rabbitmq_perf_test.Examples.Sample.{sample, totals}

module _ (N : Number) where
  abbrev pub size_10000_first : List (Value N)
  size_10000_first =
      sample N (of_ℕ N 1000) (of_ℕ N 221) (of_ℕ N 2217) (of_ℕ N 7750) (of_ℕ N 237800000)
        (of_ℕ N 238140000) (of_ℕ N 23780) (of_ℕ N 23814)
      ∷ sample N (of_ℕ N 2000) (of_ℕ N 243) (of_ℕ N 2072) (of_ℕ N 6933) (of_ℕ N 241810000)
          (of_ℕ N 241660000) (of_ℕ N 24181) (of_ℕ N 24166)
      ∷ sample N (of_ℕ N 3000) (of_ℕ N 244) (of_ℕ N 1844) (of_ℕ N 5128) (of_ℕ N 240240000)
          (of_ℕ N 240600000) (of_ℕ N 24024) (of_ℕ N 24060)
      ∷ sample N (of_ℕ N 4000) (of_ℕ N 205) (of_ℕ N 2033) (of_ℕ N 6013) (of_ℕ N 243890000)
          (of_ℕ N 243500000) (of_ℕ N 24389) (of_ℕ N 24350)
      ∷ sample N (of_ℕ N 5000) (of_ℕ N 277) (of_ℕ N 2033) (of_ℕ N 7374) (of_ℕ N 233150000)
          (of_ℕ N 234030000) (of_ℕ N 23315) (of_ℕ N 23403)
      ∷ sample N (of_ℕ N 6000) (of_ℕ N 285) (of_ℕ N 1911) (of_ℕ N 6482) (of_ℕ N 234270000)
          (of_ℕ N 234130000) (of_ℕ N 23427) (of_ℕ N 23413)
      ∷ sample N (of_ℕ N 7000) (of_ℕ N 252) (of_ℕ N 2406) (of_ℕ N 11549) (of_ℕ N 239910000)
          (of_ℕ N 239520000) (of_ℕ N 23991) (of_ℕ N 23952)
      ∷ sample N (of_ℕ N 8000) (of_ℕ N 233) (of_ℕ N 1800) (of_ℕ N 7943) (of_ℕ N 241310000)
          (of_ℕ N 241470000) (of_ℕ N 24131) (of_ℕ N 24147)
      ∷ sample N (of_ℕ N 9000) (of_ℕ N 244) (of_ℕ N 1966) (of_ℕ N 5837) (of_ℕ N 240640000)
          (of_ℕ N 240590000) (of_ℕ N 24064) (of_ℕ N 24059)
      ∷ sample N (of_ℕ N 10000) (of_ℕ N 216) (of_ℕ N 2050) (of_ℕ N 7708) (of_ℕ N 240930000)
          (of_ℕ N 240840000) (of_ℕ N 24093) (of_ℕ N 24084)
      ∷ sample N (of_ℕ N 11000) (of_ℕ N 236) (of_ℕ N 1896) (of_ℕ N 7457) (of_ℕ N 241010000)
          (of_ℕ N 240730000) (of_ℕ N 24101) (of_ℕ N 24073)
      ∷ sample N (of_ℕ N 12000) (of_ℕ N 225) (of_ℕ N 1905) (of_ℕ N 6131) (of_ℕ N 247620000)
          (of_ℕ N 248150000) (of_ℕ N 24762) (of_ℕ N 24815)
      ∷ sample N (of_ℕ N 13000) (of_ℕ N 241) (of_ℕ N 1972) (of_ℕ N 6411) (of_ℕ N 245970000)
          (of_ℕ N 245620000) (of_ℕ N 24597) (of_ℕ N 24562)
      ∷ sample N (of_ℕ N 14000) (of_ℕ N 216) (of_ℕ N 2386) (of_ℕ N 8958) (of_ℕ N 243880000)
          (of_ℕ N 243650000) (of_ℕ N 24388) (of_ℕ N 24365)
      ∷ sample N (of_ℕ N 15000) (of_ℕ N 281) (of_ℕ N 1794) (of_ℕ N 5005) (of_ℕ N 239640000)
          (of_ℕ N 239660000) (of_ℕ N 23964) (of_ℕ N 23966)
      ∷ []

  abbrev pub size_10000_rest : List (Value N)
  size_10000_rest =
      sample N (of_ℕ N 16000) (of_ℕ N 237) (of_ℕ N 1909) (of_ℕ N 7255) (of_ℕ N 238450000)
        (of_ℕ N 238680000) (of_ℕ N 23845) (of_ℕ N 23868)
      ∷ sample N (of_ℕ N 17000) (of_ℕ N 223) (of_ℕ N 2123) (of_ℕ N 6316) (of_ℕ N 241500000)
          (of_ℕ N 241830000) (of_ℕ N 24150) (of_ℕ N 24183)
      ∷ sample N (of_ℕ N 18000) (of_ℕ N 243) (of_ℕ N 3451) (of_ℕ N 11932) (of_ℕ N 248570000)
          (of_ℕ N 248160000) (of_ℕ N 24857) (of_ℕ N 24816)
      ∷ sample N (of_ℕ N 19000) (of_ℕ N 263) (of_ℕ N 1996) (of_ℕ N 5107) (of_ℕ N 241050000)
          (of_ℕ N 240800000) (of_ℕ N 24105) (of_ℕ N 24080)
      ∷ sample N (of_ℕ N 20000) (of_ℕ N 216) (of_ℕ N 1609) (of_ℕ N 8091) (of_ℕ N 239600000)
          (of_ℕ N 239640000) (of_ℕ N 23960) (of_ℕ N 23964)
      ∷ sample N (of_ℕ N 21000) (of_ℕ N 259) (of_ℕ N 2011) (of_ℕ N 5990) (of_ℕ N 239730000)
          (of_ℕ N 239890000) (of_ℕ N 23973) (of_ℕ N 23989)
      ∷ sample N (of_ℕ N 22000) (of_ℕ N 208) (of_ℕ N 2405) (of_ℕ N 7409) (of_ℕ N 243040000)
          (of_ℕ N 243250000) (of_ℕ N 24304) (of_ℕ N 24325)
      ∷ sample N (of_ℕ N 23000) (of_ℕ N 220) (of_ℕ N 1916) (of_ℕ N 5204) (of_ℕ N 241630000)
          (of_ℕ N 241480000) (of_ℕ N 24163) (of_ℕ N 24148)
      ∷ sample N (of_ℕ N 24000) (of_ℕ N 269) (of_ℕ N 1776) (of_ℕ N 5201) (of_ℕ N 241640000)
          (of_ℕ N 241960000) (of_ℕ N 24164) (of_ℕ N 24196)
      ∷ sample N (of_ℕ N 25000) (of_ℕ N 217) (of_ℕ N 2100) (of_ℕ N 8418) (of_ℕ N 241470000)
          (of_ℕ N 241450000) (of_ℕ N 24147) (of_ℕ N 24145)
      ∷ sample N (of_ℕ N 26000) (of_ℕ N 255) (of_ℕ N 2096) (of_ℕ N 5688) (of_ℕ N 244360000)
          (of_ℕ N 243910000) (of_ℕ N 24436) (of_ℕ N 24391)
      ∷ sample N (of_ℕ N 27000) (of_ℕ N 220) (of_ℕ N 1882) (of_ℕ N 9628) (of_ℕ N 237570000)
          (of_ℕ N 237600000) (of_ℕ N 23757) (of_ℕ N 23760)
      ∷ sample N (of_ℕ N 28000) (of_ℕ N 228) (of_ℕ N 1842) (of_ℕ N 4981) (of_ℕ N 240840000)
          (of_ℕ N 240940000) (of_ℕ N 24084) (of_ℕ N 24094)
      ∷ sample N (of_ℕ N 29000) (of_ℕ N 250) (of_ℕ N 1775) (of_ℕ N 4293) (of_ℕ N 240240000)
          (of_ℕ N 240220000) (of_ℕ N 24024) (of_ℕ N 24022)
      ∷ sample N (of_ℕ N 30000) (of_ℕ N 231) (of_ℕ N 1727) (of_ℕ N 5030) (of_ℕ N 240250000)
          (of_ℕ N 240100000) (of_ℕ N 24025) (of_ℕ N 24010)
      ∷ []

  abbrev pub size_10000 : Value N
  size_10000 =
      totals N (size_10000_first ++ size_10000_rest) (of_ℕ N 2031) (N.decimal 24122230769230768 8)
        (N.decimal 24121615384615383 8) (N.decimal 2412223076923077 11)
        (N.decimal 24121615384615383 12)
