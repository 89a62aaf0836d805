-- ===== src/Examples/Sizes/Size500000.antt =====
-- The results at messages of 500000 bytes.
use rabbitmq_perf_test.Base.{List, [], ◌∷◌, ◌++◌}
use rabbitmq_perf_test.Js.Number.{Number, of_ℕ}
use rabbitmq_perf_test.Js.Value.{Value}
use rabbitmq_perf_test.Examples.Sample.{sample, totals}

module _ (N : Number) where
  abbrev pub size_500000_first : List (Value N)
  size_500000_first =
      sample N (of_ℕ N 1000) (of_ℕ N 1351) (of_ℕ N 31016) (of_ℕ N 188756) (of_ℕ N 569500000)
        (of_ℕ N 624000000) (of_ℕ N 1139) (of_ℕ N 1248)
      ∷ sample N (of_ℕ N 2000) (of_ℕ N 1475) (of_ℕ N 103427) (of_ℕ N 143494) (of_ℕ N 824500000)
          (of_ℕ N 771500000) (of_ℕ N 1649) (of_ℕ N 1543)
      ∷ sample N (of_ℕ N 3001) (of_ℕ N 1807) (of_ℕ N 66631) (of_ℕ N 142756)
          (N.decimal 7312687312687312 7) (N.decimal 8511488511488512 7)
          (N.decimal 14625374625374625 13) (N.decimal 17022977022977022 13)
      ∷ sample N (of_ℕ N 4001) (of_ℕ N 1432) (of_ℕ N 54511) (of_ℕ N 175580) (of_ℕ N 512500000)
          (of_ℕ N 393500000) (of_ℕ N 1025) (of_ℕ N 787)
      ∷ sample N (of_ℕ N 5001) (of_ℕ N 1867) (of_ℕ N 54167) (of_ℕ N 141185) (of_ℕ N 733000000)
          (of_ℕ N 857500000) (of_ℕ N 1466) (of_ℕ N 1715)
      ∷ sample N (of_ℕ N 6001) (of_ℕ N 141159) (of_ℕ N 211335) (of_ℕ N 264092) (of_ℕ N 792000000)
          (of_ℕ N 889500000) (of_ℕ N 1584) (of_ℕ N 1779)
      ∷ sample N (of_ℕ N 7001) (of_ℕ N 254368) (of_ℕ N 296214) (of_ℕ N 373963) (of_ℕ N 798000000)
          (of_ℕ N 892500000) (of_ℕ N 1596) (of_ℕ N 1785)
      ∷ sample N (of_ℕ N 8001) (of_ℕ N 370470) (of_ℕ N 420719) (of_ℕ N 488520) (of_ℕ N 785000000)
          (of_ℕ N 873000000) (of_ℕ N 1570) (of_ℕ N 1746)
      ∷ sample N (of_ℕ N 9001) (of_ℕ N 479818) (of_ℕ N 500160) (of_ℕ N 529887) (of_ℕ N 795500000)
          (of_ℕ N 861000000) (of_ℕ N 1591) (of_ℕ N 1722)
      ∷ sample N (of_ℕ N 10001) (of_ℕ N 526195) (of_ℕ N 575836) (of_ℕ N 636537) (of_ℕ N 799500000)
          (of_ℕ N 844500000) (of_ℕ N 1599) (of_ℕ N 1689)
      ∷ sample N (of_ℕ N 11001) (of_ℕ N 617355) (of_ℕ N 637833) (of_ℕ N 672068) (of_ℕ N 811000000)
          (of_ℕ N 853000000) (of_ℕ N 1622) (of_ℕ N 1706)
      ∷ sample N (of_ℕ N 12001) (of_ℕ N 650624) (of_ℕ N 676166) (of_ℕ N 720573) (of_ℕ N 824000000)
          (of_ℕ N 870500000) (of_ℕ N 1648) (of_ℕ N 1741)
      ∷ sample N (of_ℕ N 13001) (of_ℕ N 718568) (of_ℕ N 757373) (of_ℕ N 784016) (of_ℕ N 780500000)
          (of_ℕ N 811000000) (of_ℕ N 1561) (of_ℕ N 1622)
      ∷ sample N (of_ℕ N 14001) (of_ℕ N 767645) (of_ℕ N 828518) (of_ℕ N 850227) (of_ℕ N 762000000)
          (of_ℕ N 769000000) (of_ℕ N 1524) (of_ℕ N 1538)
      ∷ sample N (of_ℕ N 15001) (of_ℕ N 774506) (of_ℕ N 815695) (of_ℕ N 849915) (of_ℕ N 791000000)
          (of_ℕ N 851000000) (of_ℕ N 1582) (of_ℕ N 1702)
      ∷ []

  abbrev pub size_500000_rest : List (Value N)
  size_500000_rest =
      sample N (of_ℕ N 16001) (of_ℕ N 841844) (of_ℕ N 863026) (of_ℕ N 882058) (of_ℕ N 814500000)
        (of_ℕ N 879000000) (of_ℕ N 1629) (of_ℕ N 1758)
      ∷ sample N (of_ℕ N 17001) (of_ℕ N 836471) (of_ℕ N 863015) (of_ℕ N 896681) (of_ℕ N 883500000)
          (of_ℕ N 817000000) (of_ℕ N 1767) (of_ℕ N 1634)
      ∷ sample N (of_ℕ N 18001) (of_ℕ N 804195) (of_ℕ N 844713) (of_ℕ N 881583) (of_ℕ N 846500000)
          (of_ℕ N 868500000) (of_ℕ N 1693) (of_ℕ N 1737)
      ∷ sample N (of_ℕ N 19001) (of_ℕ N 803624) (of_ℕ N 834891) (of_ℕ N 903430) (of_ℕ N 821000000)
          (of_ℕ N 800000000) (of_ℕ N 1642) (of_ℕ N 1600)
      ∷ sample N (of_ℕ N 20001) (of_ℕ N 849611) (of_ℕ N 881935) (of_ℕ N 905781) (of_ℕ N 825500000)
          (of_ℕ N 848000000) (of_ℕ N 1651) (of_ℕ N 1696)
      ∷ sample N (of_ℕ N 21001) (of_ℕ N 845357) (of_ℕ N 883576) (of_ℕ N 919357) (of_ℕ N 833000000)
          (of_ℕ N 814500000) (of_ℕ N 1666) (of_ℕ N 1629)
      ∷ sample N (of_ℕ N 22001) (of_ℕ N 808664) (of_ℕ N 847607) (of_ℕ N 895055) (of_ℕ N 870500000)
          (of_ℕ N 871000000) (of_ℕ N 1741) (of_ℕ N 1742)
      ∷ sample N (of_ℕ N 23001) (of_ℕ N 814574) (of_ℕ N 833422) (of_ℕ N 868730) (of_ℕ N 831000000)
          (of_ℕ N 860000000) (of_ℕ N 1662) (of_ℕ N 1720)
      ∷ sample N (of_ℕ N 24001) (of_ℕ N 865743) (of_ℕ N 892499) (of_ℕ N 914175) (of_ℕ N 820500000)
          (of_ℕ N 894500000) (of_ℕ N 1641) (of_ℕ N 1789)
      ∷ sample N (of_ℕ N 25001) (of_ℕ N 884909) (of_ℕ N 911556) (of_ℕ N 965602) (of_ℕ N 845000000)
          (of_ℕ N 885500000) (of_ℕ N 1690) (of_ℕ N 1771)
      ∷ sample N (of_ℕ N 26001) (of_ℕ N 960347) (of_ℕ N 984410) (of_ℕ N 1029301) (of_ℕ N 827000000)
          (of_ℕ N 816000000) (of_ℕ N 1654) (of_ℕ N 1632)
      ∷ sample N (of_ℕ N 27001) (of_ℕ N 1014961) (of_ℕ N 1052362) (of_ℕ N 1080210)
          (of_ℕ N 800000000) (of_ℕ N 858500000) (of_ℕ N 1600) (of_ℕ N 1717)
      ∷ sample N (of_ℕ N 28001) (of_ℕ N 1043282) (of_ℕ N 1098718) (of_ℕ N 1137156)
          (of_ℕ N 811000000) (of_ℕ N 741000000) (of_ℕ N 1622) (of_ℕ N 1482)
      ∷ sample N (of_ℕ N 29001) (of_ℕ N 1026374) (of_ℕ N 1088775) (of_ℕ N 1127710)
          (of_ℕ N 810500000) (of_ℕ N 910500000) (of_ℕ N 1621) (of_ℕ N 1821)
      ∷ sample N (of_ℕ N 30001) (of_ℕ N 1012050) (of_ℕ N 1064615) (of_ℕ N 1120148)
          (of_ℕ N 822500000) (of_ℕ N 869000000) (of_ℕ N 1645) (of_ℕ N 1738)
      ∷ []

  abbrev pub size_500000 : Value N
  size_500000 =
      totals N (size_500000_first ++ size_500000_rest) (of_ℕ N 763962)
        (N.decimal 8131538461538461 7) (N.decimal 8504423076923077 7)
        (N.decimal 16263076923076924 13) (N.decimal 17008846153846155 13)
