-- ===== src/Examples/Sizes/Size5000.antt =====
-- The results at messages of 5000 bytes.
use rabbitmq_perf_test.Base.{List, [], ◌∷◌, ◌++◌}
use rabbitmq_perf_test.Js.Number.{Number, of_ℕ}
use rabbitmq_perf_test.Js.Value.{Value}
use rabbitmq_perf_test.Examples.Sample.{sample, totals}

module _ (N : Number) where
  abbrev pub size_5000_first : List (Value N)
  size_5000_first =
      sample N (of_ℕ N 1000) (of_ℕ N 2919) (of_ℕ N 10164) (of_ℕ N 18563) (of_ℕ N 141090000)
        (of_ℕ N 142475000) (of_ℕ N 28218) (of_ℕ N 28495)
      ∷ sample N (of_ℕ N 2000) (of_ℕ N 6536) (of_ℕ N 9817) (of_ℕ N 14473) (of_ℕ N 155995000)
          (of_ℕ N 155945000) (of_ℕ N 31199) (of_ℕ N 31189)
      ∷ sample N (of_ℕ N 3000) (of_ℕ N 4737) (of_ℕ N 9898) (of_ℕ N 14509) (of_ℕ N 158650000)
          (of_ℕ N 158890000) (of_ℕ N 31730) (of_ℕ N 31778)
      ∷ sample N (of_ℕ N 4000) (of_ℕ N 3584) (of_ℕ N 9845) (of_ℕ N 13946) (of_ℕ N 156835000)
          (of_ℕ N 156730000) (of_ℕ N 31367) (of_ℕ N 31346)
      ∷ sample N (of_ℕ N 5000) (of_ℕ N 4505) (of_ℕ N 9801) (of_ℕ N 13890) (of_ℕ N 159100000)
          (of_ℕ N 158775000) (of_ℕ N 31820) (of_ℕ N 31755)
      ∷ sample N (of_ℕ N 6000) (of_ℕ N 5425) (of_ℕ N 10167) (of_ℕ N 14128) (of_ℕ N 153600000)
          (of_ℕ N 154240000) (of_ℕ N 30720) (of_ℕ N 30848)
      ∷ sample N (of_ℕ N 7000) (of_ℕ N 4551) (of_ℕ N 9765) (of_ℕ N 14894) (of_ℕ N 160150000)
          (of_ℕ N 159780000) (of_ℕ N 32030) (of_ℕ N 31956)
      ∷ sample N (of_ℕ N 8000) (of_ℕ N 3734) (of_ℕ N 9825) (of_ℕ N 14276) (of_ℕ N 158715000)
          (of_ℕ N 159020000) (of_ℕ N 31743) (of_ℕ N 31804)
      ∷ sample N (of_ℕ N 9000) (of_ℕ N 6362) (of_ℕ N 9981) (of_ℕ N 15195) (of_ℕ N 156320000)
          (of_ℕ N 156120000) (of_ℕ N 31264) (of_ℕ N 31224)
      ∷ sample N (of_ℕ N 10000) (of_ℕ N 4541) (of_ℕ N 9861) (of_ℕ N 14024) (of_ℕ N 159800000)
          (of_ℕ N 159825000) (of_ℕ N 31960) (of_ℕ N 31965)
      ∷ sample N (of_ℕ N 11000) (of_ℕ N 5771) (of_ℕ N 10022) (of_ℕ N 14914) (of_ℕ N 156940000)
          (of_ℕ N 157145000) (of_ℕ N 31388) (of_ℕ N 31429)
      ∷ sample N (of_ℕ N 12000) (of_ℕ N 5331) (of_ℕ N 10512) (of_ℕ N 18041) (of_ℕ N 149550000)
          (of_ℕ N 149060000) (of_ℕ N 29910) (of_ℕ N 29812)
      ∷ sample N (of_ℕ N 13000) (of_ℕ N 6462) (of_ℕ N 10772) (of_ℕ N 14804) (of_ℕ N 144030000)
          (of_ℕ N 144130000) (of_ℕ N 28806) (of_ℕ N 28826)
      ∷ sample N (of_ℕ N 14000) (of_ℕ N 4882) (of_ℕ N 10552) (of_ℕ N 18039) (of_ℕ N 147395000)
          (of_ℕ N 147775000) (of_ℕ N 29479) (of_ℕ N 29555)
      ∷ sample N (of_ℕ N 15000) (of_ℕ N 5064) (of_ℕ N 10453) (of_ℕ N 14554) (of_ℕ N 147995000)
          (of_ℕ N 147975000) (of_ℕ N 29599) (of_ℕ N 29595)
      ∷ []

  abbrev pub size_5000_rest : List (Value N)
  size_5000_rest =
      sample N (of_ℕ N 16000) (of_ℕ N 5099) (of_ℕ N 10611) (of_ℕ N 19102) (of_ℕ N 146820000)
        (of_ℕ N 146385000) (of_ℕ N 29364) (of_ℕ N 29277)
      ∷ sample N (of_ℕ N 17000) (of_ℕ N 6746) (of_ℕ N 10870) (of_ℕ N 16260) (of_ℕ N 141940000)
          (of_ℕ N 142075000) (of_ℕ N 28388) (of_ℕ N 28415)
      ∷ sample N (of_ℕ N 18000) (of_ℕ N 5485) (of_ℕ N 9832) (of_ℕ N 15535) (of_ℕ N 159955000)
          (of_ℕ N 159770000) (of_ℕ N 31991) (of_ℕ N 31954)
      ∷ sample N (of_ℕ N 19000) (of_ℕ N 4239) (of_ℕ N 9892) (of_ℕ N 15565) (of_ℕ N 158040000)
          (of_ℕ N 158215000) (of_ℕ N 31608) (of_ℕ N 31643)
      ∷ sample N (of_ℕ N 20000) (of_ℕ N 5608) (of_ℕ N 10014) (of_ℕ N 14314) (of_ℕ N 157620000)
          (of_ℕ N 157775000) (of_ℕ N 31524) (of_ℕ N 31555)
      ∷ sample N (of_ℕ N 21000) (of_ℕ N 5759) (of_ℕ N 10153) (of_ℕ N 14835) (of_ℕ N 154205000)
          (of_ℕ N 154115000) (of_ℕ N 30841) (of_ℕ N 30823)
      ∷ sample N (of_ℕ N 22000) (of_ℕ N 4458) (of_ℕ N 9812) (of_ℕ N 17193) (of_ℕ N 159415000)
          (of_ℕ N 159635000) (of_ℕ N 31883) (of_ℕ N 31927)
      ∷ sample N (of_ℕ N 23000) (of_ℕ N 4899) (of_ℕ N 9739) (of_ℕ N 14071) (of_ℕ N 161190000)
          (of_ℕ N 161040000) (of_ℕ N 32238) (of_ℕ N 32208)
      ∷ sample N (of_ℕ N 24000) (of_ℕ N 5946) (of_ℕ N 9818) (of_ℕ N 14045) (of_ℕ N 158405000)
          (of_ℕ N 158195000) (of_ℕ N 31681) (of_ℕ N 31639)
      ∷ sample N (of_ℕ N 25000) (of_ℕ N 5039) (of_ℕ N 9855) (of_ℕ N 14055) (of_ℕ N 158230000)
          (of_ℕ N 158250000) (of_ℕ N 31646) (of_ℕ N 31650)
      ∷ sample N (of_ℕ N 26000) (of_ℕ N 6672) (of_ℕ N 10160) (of_ℕ N 14509) (of_ℕ N 153770000)
          (of_ℕ N 154085000) (of_ℕ N 30754) (of_ℕ N 30817)
      ∷ sample N (of_ℕ N 27000) (of_ℕ N 7436) (of_ℕ N 10649) (of_ℕ N 15842) (of_ℕ N 157985000)
          (of_ℕ N 158085000) (of_ℕ N 31597) (of_ℕ N 31617)
      ∷ sample N (of_ℕ N 28000) (of_ℕ N 5835) (of_ℕ N 10428) (of_ℕ N 14525) (of_ℕ N 162790000)
          (of_ℕ N 162470000) (of_ℕ N 32558) (of_ℕ N 32494)
      ∷ sample N (of_ℕ N 29000) (of_ℕ N 6871) (of_ℕ N 10453) (of_ℕ N 13920) (of_ℕ N 162480000)
          (of_ℕ N 162710000) (of_ℕ N 32496) (of_ℕ N 32542)
      ∷ sample N (of_ℕ N 30000) (of_ℕ N 6847) (of_ℕ N 10681) (of_ℕ N 14821) (of_ℕ N 158555000)
          (of_ℕ N 158575000) (of_ℕ N 31711) (of_ℕ N 31715)
      ∷ []

  abbrev pub size_5000 : Value N
  size_5000 =
      totals N (size_5000_first ++ size_5000_rest) (of_ℕ N 10171) (N.decimal 15569826923076925 8)
        (N.decimal 15564173076923075 8) (N.decimal 31139653846153848 12)
        (N.decimal 31128346153846152 12)
