-- ===== src/Examples/Sizes/Size1000000.antt =====
-- The results at messages of 1000000 bytes.
use rabbitmq_perf_test.Base.{List, [], ◌∷◌, ◌++◌}
use rabbitmq_perf_test.Js.Number.{Number, of_ℕ}
use rabbitmq_perf_test.Js.Value.{Value}
use rabbitmq_perf_test.Examples.Sample.{sample, totals}

module _ (N : Number) where
  abbrev pub size_1000000_first : List (Value N)
  size_1000000_first =
      sample N (of_ℕ N 1000) (of_ℕ N 2259) (of_ℕ N 47550) (of_ℕ N 177418) (of_ℕ N 603000000)
        (of_ℕ N 717000000) (of_ℕ N 603) (of_ℕ N 717)
      ∷ sample N (of_ℕ N 2000) (of_ℕ N 32031) (of_ℕ N 148030) (of_ℕ N 230253) (of_ℕ N 776000000)
          (of_ℕ N 808000000) (of_ℕ N 776) (of_ℕ N 808)
      ∷ sample N (of_ℕ N 3000) (of_ℕ N 2958) (of_ℕ N 108889) (of_ℕ N 214298) (of_ℕ N 735000000)
          (of_ℕ N 604000000) (of_ℕ N 735) (of_ℕ N 604)
      ∷ sample N (of_ℕ N 4000) (of_ℕ N 18742) (of_ℕ N 127605) (of_ℕ N 215686) (of_ℕ N 804000000)
          (of_ℕ N 889000000) (of_ℕ N 804) (of_ℕ N 889)
      ∷ sample N (of_ℕ N 5000) (of_ℕ N 104928) (of_ℕ N 177864) (of_ℕ N 287651) (of_ℕ N 761000000)
          (of_ℕ N 911000000) (of_ℕ N 761) (of_ℕ N 911)
      ∷ sample N (of_ℕ N 6000) (of_ℕ N 283602) (of_ℕ N 399447) (of_ℕ N 510288) (of_ℕ N 689000000)
          (of_ℕ N 876000000) (of_ℕ N 689) (of_ℕ N 876)
      ∷ sample N (of_ℕ N 7000) (of_ℕ N 345132) (of_ℕ N 506954) (of_ℕ N 589546) (of_ℕ N 786000000)
          (of_ℕ N 758000000) (of_ℕ N 786) (of_ℕ N 758)
      ∷ sample N (of_ℕ N 8000) (of_ℕ N 428722) (of_ℕ N 538092) (of_ℕ N 616353) (of_ℕ N 849000000)
          (of_ℕ N 780000000) (of_ℕ N 849) (of_ℕ N 780)
      ∷ sample N (of_ℕ N 9000) (of_ℕ N 487448) (of_ℕ N 559871) (of_ℕ N 674709) (of_ℕ N 723000000)
          (of_ℕ N 883000000) (of_ℕ N 723) (of_ℕ N 883)
      ∷ sample N (of_ℕ N 10000) (of_ℕ N 541058) (of_ℕ N 664034) (of_ℕ N 781229) (of_ℕ N 708000000)
          (of_ℕ N 924000000) (of_ℕ N 708) (of_ℕ N 924)
      ∷ sample N (of_ℕ N 11000) (of_ℕ N 781746) (of_ℕ N 902897) (of_ℕ N 988124) (of_ℕ N 728000000)
          (of_ℕ N 908000000) (of_ℕ N 728) (of_ℕ N 908)
      ∷ sample N (of_ℕ N 12000) (of_ℕ N 984355) (of_ℕ N 1089708) (of_ℕ N 1177769) (of_ℕ N 736000000)
          (of_ℕ N 899000000) (of_ℕ N 736) (of_ℕ N 899)
      ∷ sample N (of_ℕ N 13001) (of_ℕ N 1175383) (of_ℕ N 1279448) (of_ℕ N 1384042)
          (N.decimal 7312687312687312 7) (N.decimal 9090909090909091 7)
          (N.decimal 7312687312687312 13) (N.decimal 9090909090909091 13)
      ∷ sample N (of_ℕ N 14001) (of_ℕ N 1351644) (of_ℕ N 1421340) (of_ℕ N 1493138)
          (of_ℕ N 874000000) (of_ℕ N 590000000) (of_ℕ N 874) (of_ℕ N 590)
      ∷ sample N (of_ℕ N 15001) (of_ℕ N 1067956) (of_ℕ N 1326004) (of_ℕ N 1422547)
          (of_ℕ N 869000000) (of_ℕ N 771000000) (of_ℕ N 869) (of_ℕ N 771)
      ∷ []

  abbrev pub size_1000000_rest : List (Value N)
  size_1000000_rest =
      sample N (of_ℕ N 16001) (of_ℕ N 962694) (of_ℕ N 1092050) (of_ℕ N 1254164) (of_ℕ N 649000000)
        (of_ℕ N 857000000) (of_ℕ N 649) (of_ℕ N 857)
      ∷ sample N (of_ℕ N 17001) (of_ℕ N 1259057) (of_ℕ N 1374867) (of_ℕ N 1475358)
          (of_ℕ N 688000000) (of_ℕ N 890000000) (of_ℕ N 688) (of_ℕ N 890)
      ∷ sample N (of_ℕ N 18001) (of_ℕ N 1473706) (of_ℕ N 1586079) (of_ℕ N 1715413)
          (of_ℕ N 634000000) (of_ℕ N 891000000) (of_ℕ N 634) (of_ℕ N 891)
      ∷ sample N (of_ℕ N 19001) (of_ℕ N 1715442) (of_ℕ N 1836331) (of_ℕ N 1927510)
          (of_ℕ N 702000000) (of_ℕ N 884000000) (of_ℕ N 702) (of_ℕ N 884)
      ∷ sample N (of_ℕ N 20001) (of_ℕ N 1920754) (of_ℕ N 1994088) (of_ℕ N 2093203)
          (of_ℕ N 734000000) (of_ℕ N 839000000) (of_ℕ N 734) (of_ℕ N 839)
      ∷ sample N (of_ℕ N 21001) (of_ℕ N 2093614) (of_ℕ N 2202280) (of_ℕ N 2286374)
          (of_ℕ N 735000000) (of_ℕ N 950000000) (of_ℕ N 735) (of_ℕ N 950)
      ∷ sample N (of_ℕ N 22001) (of_ℕ N 2283729) (of_ℕ N 2337959) (of_ℕ N 2423132)
          (of_ℕ N 710000000) (of_ℕ N 929000000) (of_ℕ N 710) (of_ℕ N 929)
      ∷ sample N (of_ℕ N 23001) (of_ℕ N 2419370) (of_ℕ N 2534634) (of_ℕ N 2672030)
          (of_ℕ N 658000000) (of_ℕ N 810000000) (of_ℕ N 658) (of_ℕ N 810)
      ∷ sample N (of_ℕ N 24001) (of_ℕ N 2672019) (of_ℕ N 2837687) (of_ℕ N 2987824)
          (of_ℕ N 666000000) (of_ℕ N 822000000) (of_ℕ N 666) (of_ℕ N 822)
      ∷ sample N (of_ℕ N 25001) (of_ℕ N 2984485) (of_ℕ N 3079923) (of_ℕ N 3203980)
          (of_ℕ N 722000000) (of_ℕ N 834000000) (of_ℕ N 722) (of_ℕ N 834)
      ∷ sample N (of_ℕ N 26001) (of_ℕ N 3202668) (of_ℕ N 3315992) (of_ℕ N 3408489)
          (of_ℕ N 678000000) (of_ℕ N 813000000) (of_ℕ N 678) (of_ℕ N 813)
      ∷ sample N (of_ℕ N 27001) (of_ℕ N 3408980) (of_ℕ N 3575263) (of_ℕ N 3689109)
          (of_ℕ N 584000000) (of_ℕ N 747000000) (of_ℕ N 584) (of_ℕ N 747)
      ∷ sample N (of_ℕ N 28001) (of_ℕ N 3686569) (of_ℕ N 3823676) (of_ℕ N 3954991)
          (of_ℕ N 604000000) (of_ℕ N 768000000) (of_ℕ N 604) (of_ℕ N 768)
      ∷ sample N (of_ℕ N 29001) (of_ℕ N 3950737) (of_ℕ N 4113711) (of_ℕ N 4270463)
          (of_ℕ N 584000000) (of_ℕ N 766000000) (of_ℕ N 584) (of_ℕ N 766)
      ∷ sample N (of_ℕ N 30001) (of_ℕ N 4270759) (of_ℕ N 4423855) (of_ℕ N 4513062)
          (of_ℕ N 615000000) (of_ℕ N 789000000) (of_ℕ N 615) (of_ℕ N 789)
      ∷ []

  abbrev pub size_1000000 : Value N
  size_1000000 =
      totals N (size_1000000_first ++ size_1000000_rest) (of_ℕ N 1807902)
        (N.decimal 7101265335948617 7) (N.decimal 8400830737279335 7)
        (N.decimal 7101265335948617 13) (N.decimal 8400830737279335 13)
