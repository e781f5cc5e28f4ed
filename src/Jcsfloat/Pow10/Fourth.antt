-- ===== src/Jcsfloat/Pow10/Fourth.antt =====
-- jcsfloat/pow10_table.go, the entries for 1e72 to 1e211: low word, high word.
use jcs_schubfach.Prelude.{ℕ, List, [], ◌∷◌}

unfoldable pub fourth_powers : List (ℕ × ℕ)
fourth_powers =
    (0xBC8955E946FE31CD, 0x90E40FBEEA1D3A4A)
    ∷ (0x6BABAB6398BDBE41, 0xB51D13AEA4A488DD)
    ∷ (0xC696963C7EED2DD1, 0xE264589A4DCDAB14)
    ∷ (0xFC1E1DE5CF543CA2, 0x8D7EB76070A08AEC)
    ∷ (0x3B25A55F43294BCB, 0xB0DE65388CC8ADA8)
    ∷ (0x49EF0EB713F39EBE, 0xDD15FE86AFFAD912)
    ∷ (0x6E3569326C784337, 0x8A2DBF142DFCC7AB)
    ∷ (0x49C2C37F07965404, 0xACB92ED9397BF996)
    ∷ (0xDC33745EC97BE906, 0xD7E77A8F87DAF7FB)
    ∷ (0x69A028BB3DED71A3, 0x86F0AC99B4E8DAFD)
    ∷ (0xC40832EA0D68CE0C, 0xA8ACD7C0222311BC)
    ∷ (0xF50A3FA490C30190, 0xD2D80DB02AABD62B)
    ∷ (0x792667C6DA79E0FA, 0x83C7088E1AAB65DB)
    ∷ (0x577001B891185938, 0xA4B8CAB1A1563F52)
    ∷ (0xED4C0226B55E6F86, 0xCDE6FD5E09ABCF26)
    ∷ (0x544F8158315B05B4, 0x80B05E5AC60B6178)
    ∷ (0x696361AE3DB1C721, 0xA0DC75F1778E39D6)
    ∷ (0x03BC3A19CD1E38E9, 0xC913936DD571C84C)
    ∷ (0x04AB48A04065C723, 0xFB5878494ACE3A5F)
    ∷ (0x62EB0D64283F9C76, 0x9D174B2DCEC0E47B)
    ∷ (0x3BA5D0BD324F8394, 0xC45D1DF942711D9A)
    ∷ (0xCA8F44EC7EE36479, 0xF5746577930D6500)
    ∷ (0x7E998B13CF4E1ECB, 0x9968BF6ABBE85F20)
    ∷ (0x9E3FEDD8C321A67E, 0xBFC2EF456AE276E8)
    ∷ (0xC5CFE94EF3EA101E, 0xEFB3AB16C59B14A2)
    ∷ (0xBBA1F1D158724A12, 0x95D04AEE3B80ECE5)
    ∷ (0x2A8A6E45AE8EDC97, 0xBB445DA9CA61281F)
    ∷ (0xF52D09D71A3293BD, 0xEA1575143CF97226)
    ∷ (0x593C2626705F9C56, 0x924D692CA61BE758)
    ∷ (0x6F8B2FB00C77836C, 0xB6E0C377CFA2E12E)
    ∷ (0x0B6DFB9C0F956447, 0xE498F455C38B997A)
    ∷ (0x4724BD4189BD5EAC, 0x8EDF98B59A373FEC)
    ∷ (0x58EDEC91EC2CB657, 0xB2977EE300C50FE7)
    ∷ (0x2F2967B66737E3ED, 0xDF3D5E9BC0F653E1)
    ∷ (0xBD79E0D20082EE74, 0x8B865B215899F46C)
    ∷ (0xECD8590680A3AA11, 0xAE67F1E9AEC07187)
    ∷ (0xE80E6F4820CC9495, 0xDA01EE641A708DE9)
    ∷ (0x3109058D147FDCDD, 0x884134FE908658B2)
    ∷ (0xBD4B46F0599FD415, 0xAA51823E34A7EEDE)
    ∷ (0x6C9E18AC7007C91A, 0xD4E5E2CDC1D1EA96)
    ∷ (0x03E2CF6BC604DDB0, 0x850FADC09923329E)
    ∷ (0x84DB8346B786151C, 0xA6539930BF6BFF45)
    ∷ (0xE612641865679A63, 0xCFE87F7CEF46FF16)
    ∷ (0x4FCB7E8F3F60C07E, 0x81F14FAE158C5F6E)
    ∷ (0xE3BE5E330F38F09D, 0xA26DA3999AEF7749)
    ∷ (0x5CADF5BFD3072CC5, 0xCB090C8001AB551C)
    ∷ (0x73D9732FC7C8F7F6, 0xFDCB4FA002162A63)
    ∷ (0x2867E7FDDCDD9AFA, 0x9E9F11C4014DDA7E)
    ∷ (0xB281E1FD541501B8, 0xC646D63501A1511D)
    ∷ (0x1F225A7CA91A4226, 0xF7D88BC24209A565)
    ∷ (0x3375788DE9B06958, 0x9AE757596946075F)
    ∷ (0x0052D6B1641C83AE, 0xC1A12D2FC3978937)
    ∷ (0xC0678C5DBD23A49A, 0xF209787BB47D6B84)
    ∷ (0xF840B7BA963646E0, 0x9745EB4D50CE6332)
    ∷ (0xB650E5A93BC3D898, 0xBD176620A501FBFF)
    ∷ (0xA3E51F138AB4CEBE, 0xEC5D3FA8CE427AFF)
    ∷ (0xC66F336C36B10137, 0x93BA47C980E98CDF)
    ∷ (0xB80B0047445D4184, 0xB8A8D9BBE123F017)
    ∷ (0xA60DC059157491E5, 0xE6D3102AD96CEC1D)
    ∷ (0x87C89837AD68DB2F, 0x9043EA1AC7E41392)
    ∷ (0x29BABE4598C311FB, 0xB454E4A179DD1877)
    ∷ (0xF4296DD6FEF3D67A, 0xE16A1DC9D8545E94)
    ∷ (0x1899E4A65F58660C, 0x8CE2529E2734BB1D)
    ∷ (0x5EC05DCFF72E7F8F, 0xB01AE745B101E9E4)
    ∷ (0x76707543F4FA1F73, 0xDC21A1171D42645D)
    ∷ (0x6A06494A791C53A8, 0x899504AE72497EBA)
    ∷ (0x0487DB9D17636892, 0xABFA45DA0EDBDE69)
    ∷ (0x45A9D2845D3C42B6, 0xD6F8D7509292D603)
    ∷ (0x0B8A2392BA45A9B2, 0x865B86925B9BC5C2)
    ∷ (0x8E6CAC7768D7141E, 0xA7F26836F282B732)
    ∷ (0x3207D795430CD926, 0xD1EF0244AF2364FF)
    ∷ (0x7F44E6BD49E807B8, 0x8335616AED761F1F)
    ∷ (0x5F16206C9C6209A6, 0xA402B9C5A8D3A6E7)
    ∷ (0x36DBA887C37A8C0F, 0xCD036837130890A1)
    ∷ (0xC2494954DA2C9789, 0x802221226BE55A64)
    ∷ (0xF2DB9BAA10B7BD6C, 0xA02AA96B06DEB0FD)
    ∷ (0x6F92829494E5ACC7, 0xC83553C5C8965D3D)
    ∷ (0xCB772339BA1F17F9, 0xFA42A8B73ABBF48C)
    ∷ (0xFF2A760414536EFB, 0x9C69A97284B578D7)
    ∷ (0xFEF5138519684ABA, 0xC38413CF25E2D70D)
    ∷ (0x7EB258665FC25D69, 0xF46518C2EF5B8CD1)
    ∷ (0xEF2F773FFBD97A61, 0x98BF2F79D5993802)
    ∷ (0xAAFB550FFACFD8FA, 0xBEEEFB584AFF8603)
    ∷ (0x95BA2A53F983CF38, 0xEEAABA2E5DBF6784)
    ∷ (0xDD945A747BF26183, 0x952AB45CFA97A0B2)
    ∷ (0x94F971119AEEF9E4, 0xBA756174393D88DF)
    ∷ (0x7A37CD5601AAB85D, 0xE912B9D1478CEB17)
    ∷ (0xAC62E055C10AB33A, 0x91ABB422CCB812EE)
    ∷ (0x577B986B314D6009, 0xB616A12B7FE617AA)
    ∷ (0xED5A7E85FDA0B80B, 0xE39C49765FDF9D94)
    ∷ (0x14588F13BE847307, 0x8E41ADE9FBEBC27D)
    ∷ (0x596EB2D8AE258FC8, 0xB1D219647AE6B31C)
    ∷ (0x6FCA5F8ED9AEF3BB, 0xDE469FBD99A05FE3)
    ∷ (0x25DE7BB9480D5854, 0x8AEC23D680043BEE)
    ∷ (0xAF561AA79A10AE6A, 0xADA72CCC20054AE9)
    ∷ (0x1B2BA1518094DA04, 0xD910F7FF28069DA4)
    ∷ (0x90FB44D2F05D0842, 0x87AA9AFF79042286)
    ∷ (0x353A1607AC744A53, 0xA99541BF57452B28)
    ∷ (0x42889B8997915CE8, 0xD3FA922F2D1675F2)
    ∷ (0x69956135FEBADA11, 0x847C9B5D7C2E09B7)
    ∷ (0x43FAB9837E699095, 0xA59BC234DB398C25)
    ∷ (0x94F967E45E03F4BB, 0xCF02B2C21207EF2E)
    ∷ (0x1D1BE0EEBAC278F5, 0x8161AFB94B44F57D)
    ∷ (0x6462D92A69731732, 0xA1BA1BA79E1632DC)
    ∷ (0x7D7B8F7503CFDCFE, 0xCA28A291859BBF93)
    ∷ (0x5CDA735244C3D43E, 0xFCB2CB35E702AF78)
    ∷ (0x3A0888136AFA64A7, 0x9DEFBF01B061ADAB)
    ∷ (0x088AAA1845B8FDD0, 0xC56BAEC21C7A1916)
    ∷ (0x8AAD549E57273D45, 0xF6C69A72A3989F5B)
    ∷ (0x36AC54E2F678864B, 0x9A3C2087A63F6399)
    ∷ (0x84576A1BB416A7DD, 0xC0CB28A98FCF3C7F)
    ∷ (0x656D44A2A11C51D5, 0xF0FDF2D3F3C30B9F)
    ∷ (0x9F644AE5A4B1B325, 0x969EB7C47859E743)
    ∷ (0x873D5D9F0DDE1FEE, 0xBC4665B596706114)
    ∷ (0xA90CB506D155A7EA, 0xEB57FF22FC0C7959)
    ∷ (0x09A7F12442D588F2, 0x9316FF75DD87CBD8)
    ∷ (0x0C11ED6D538AEB2F, 0xB7DCBF5354E9BECE)
    ∷ (0x8F1668C8A86DA5FA, 0xE5D3EF282A242E81)
    ∷ (0xF96E017D694487BC, 0x8FA475791A569D10)
    ∷ (0x37C981DCC395A9AC, 0xB38D92D760EC4455)
    ∷ (0x85BBE253F47B1417, 0xE070F78D3927556A)
    ∷ (0x93956D7478CCEC8E, 0x8C469AB843B89562)
    ∷ (0x387AC8D1970027B2, 0xAF58416654A6BABB)
    ∷ (0x06997B05FCC0319E, 0xDB2E51BFE9D0696A)
    ∷ (0x441FECE3BDF81F03, 0x88FCF317F22241E2)
    ∷ (0xD527E81CAD7626C3, 0xAB3C2FDDEEAAD25A)
    ∷ (0x8A71E223D8D3B074, 0xD60B3BD56A5586F1)
    ∷ (0xF6872D5667844E49, 0x85C7056562757456)
    ∷ (0xB428F8AC016561DB, 0xA738C6BEBB12D16C)
    ∷ (0xE13336D701BEBA52, 0xD106F86E69D785C7)
    ∷ (0xECC0024661173473, 0x82A45B450226B39C)
    ∷ (0x27F002D7F95D0190, 0xA34D721642B06084)
    ∷ (0x31EC038DF7B441F4, 0xCC20CE9BD35C78A5)
    ∷ (0x7E67047175A15271, 0xFF290242C83396CE)
    ∷ (0x0F0062C6E984D386, 0x9F79A169BD203E41)
    ∷ (0x52C07B78A3E60868, 0xC75809C42C684DD1)
    ∷ (0xA7709A56CCDF8A82, 0xF92E0C3537826145)
    ∷ (0x88A66076400BB691, 0x9BBCC7A142B17CCB)
    ∷ (0x6ACFF893D00EA435, 0xC2ABF989935DDBFE)
    ∷ (0x0583F6B8C4124D43, 0xF356F7EBF83552FE)
    ∷ []
