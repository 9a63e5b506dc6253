-- ===== src/Provider/Aws/CanonicalZones.antt =====
-- `canonicalHostedZones` of provider/aws/aws.go.
use external_dns.Prelude.{Map, Text, [], codes, ◌∷◌}

abbrev pub canonical_hosted_zones : Map Text Text
canonical_hosted_zones =
    (codes "us-east-2.elb.amazonaws.com", codes "Z3AADJGX6KTTL2")
    ∷ (codes "us-east-1.elb.amazonaws.com", codes "Z35SXDOTRQ7X7K")
    ∷ (codes "us-west-1.elb.amazonaws.com", codes "Z368ELLRRE2KJ0")
    ∷ (codes "us-west-2.elb.amazonaws.com", codes "Z1H1FL5HABSF5")
    ∷ (codes "ca-central-1.elb.amazonaws.com", codes "ZQSVJUPU6J1EY")
    ∷ (codes "ca-west-1.elb.amazonaws.com", codes "Z06473681N0SF6OS049SD")
    ∷ (codes "ap-east-1.elb.amazonaws.com", codes "Z3DQVH9N71FHZ0")
    ∷ (codes "ap-east-2.elb.amazonaws.com", codes "Z02789141MW7T1WBU19PO")
    ∷ (codes "ap-south-1.elb.amazonaws.com", codes "ZP97RAFLXTNZK")
    ∷ (codes "ap-south-2.elb.amazonaws.com", codes "Z0173938T07WNTVAEPZN")
    ∷ (codes "ap-northeast-2.elb.amazonaws.com", codes "ZWKZPGTI48KDX")
    ∷ (codes "ap-northeast-3.elb.amazonaws.com", codes "Z5LXEXXYW11ES")
    ∷ (codes "ap-southeast-1.elb.amazonaws.com", codes "Z1LMS91P8CMLE5")
    ∷ (codes "ap-southeast-2.elb.amazonaws.com", codes "Z1GM3OXH4ZPM65")
    ∷ (codes "ap-southeast-3.elb.amazonaws.com", codes "Z08888821HLRG5A9ZRTER")
    ∷ (codes "ap-southeast-4.elb.amazonaws.com", codes "Z09517862IB2WZLPXG76F")
    ∷ (codes "ap-southeast-5.elb.amazonaws.com", codes "Z06010284QMVVW7WO5J")
    ∷ (codes "ap-southeast-6.elb.amazonaws.com", codes "Z023301818UFJ50CIO0MV")
    ∷ (codes "ap-southeast-7.elb.amazonaws.com", codes "Z0390008CMBRTHFGWBCB")
    ∷ (codes "ap-northeast-1.elb.amazonaws.com", codes "Z14GRHDCWA56QT")
    ∷ (codes "eu-central-1.elb.amazonaws.com", codes "Z215JYRZR1TBD5")
    ∷ (codes "eu-central-2.elb.amazonaws.com", codes "Z06391101F2ZOEP8P5EB3")
    ∷ (codes "eu-west-1.elb.amazonaws.com", codes "Z32O12XQLNTSW2")
    ∷ (codes "eu-west-2.elb.amazonaws.com", codes "ZHURV8PSTC4K8")
    ∷ (codes "eu-west-3.elb.amazonaws.com", codes "Z3Q77PNBQS71R4")
    ∷ (codes "eu-north-1.elb.amazonaws.com", codes "Z23TAZ6LKFMNIO")
    ∷ (codes "eu-south-1.elb.amazonaws.com", codes "Z3ULH7SSC9OV64")
    ∷ (codes "eu-south-2.elb.amazonaws.com", codes "Z0956581394HF5D5LXGAP")
    ∷ (codes "sa-east-1.elb.amazonaws.com", codes "Z2P70J7HTTTPLU")
    ∷ (codes "cn-north-1.elb.amazonaws.com.cn", codes "Z1GDH35T77C1KE")
    ∷ (codes "cn-northwest-1.elb.amazonaws.com.cn", codes "ZM7IZAIOVVDZF")
    ∷ (codes "us-gov-west-1.elb.amazonaws.com", codes "Z33AYJ8TM3BH4J")
    ∷ (codes "us-gov-east-1.elb.amazonaws.com", codes "Z166TLBEWOO7G0")
    ∷ (codes "mx-central-1.elb.amazonaws.com", codes "Z023552324OKD1BB28BH5")
    ∷ (codes "me-central-1.elb.amazonaws.com", codes "Z08230872XQRWHG2XF6I")
    ∷ (codes "me-south-1.elb.amazonaws.com", codes "ZS929ML54UICD")
    ∷ (codes "af-south-1.elb.amazonaws.com", codes "Z268VQBMOI5EKX")
    ∷ (codes "il-central-1.elb.amazonaws.com", codes "Z09170902867EHPV2DABU")
    ∷ (codes "elb.us-east-2.amazonaws.com", codes "ZLMOA37VPKANP")
    ∷ (codes "elb.us-east-1.amazonaws.com", codes "Z26RNL4JYFTOTI")
    ∷ (codes "elb.us-west-1.amazonaws.com", codes "Z24FKFUX50B4VW")
    ∷ (codes "elb.us-west-2.amazonaws.com", codes "Z18D5FSROUN65G")
    ∷ (codes "elb.ca-central-1.amazonaws.com", codes "Z2EPGBW3API2WT")
    ∷ (codes "elb.ca-west-1.amazonaws.com", codes "Z02754302KBB00W2LKWZ9")
    ∷ (codes "elb.ap-east-1.amazonaws.com", codes "Z12Y7K3UBGUAD1")
    ∷ (codes "elb.ap-east-2.amazonaws.com", codes "Z09176273OC2HWIAUNYW")
    ∷ (codes "elb.ap-south-1.amazonaws.com", codes "ZVDDRBQ08TROA")
    ∷ (codes "elb.ap-south-2.amazonaws.com", codes "Z0711778386UTO08407HT")
    ∷ (codes "elb.ap-northeast-3.amazonaws.com", codes "Z1GWIQ4HH19I5X")
    ∷ (codes "elb.ap-northeast-2.amazonaws.com", codes "ZIBE1TIR4HY56")
    ∷ (codes "elb.ap-southeast-1.amazonaws.com", codes "ZKVM4W9LS7TM")
    ∷ (codes "elb.ap-southeast-2.amazonaws.com", codes "ZCT6FZBF4DROD")
    ∷ (codes "elb.ap-southeast-3.amazonaws.com", codes "Z01971771FYVNCOVWJU1G")
    ∷ (codes "elb.ap-southeast-4.amazonaws.com", codes "Z01156963G8MIIL7X90IV")
    ∷ (codes "elb.ap-southeast-5.amazonaws.com", codes "Z026317210H9ACVTRO6FB")
    ∷ (codes "elb.ap-southeast-6.amazonaws.com", codes "Z01392953RKV2Q3RBP0KU")
    ∷ (codes "elb.ap-southeast-7.amazonaws.com", codes "Z054363131YWATEMWRG5L")
    ∷ (codes "elb.ap-northeast-1.amazonaws.com", codes "Z31USIVHYNEOWT")
    ∷ (codes "elb.eu-central-1.amazonaws.com", codes "Z3F0SRJ5LGBH90")
    ∷ (codes "elb.eu-central-2.amazonaws.com", codes "Z02239872DOALSIDCX66S")
    ∷ (codes "elb.eu-west-1.amazonaws.com", codes "Z2IFOLAFXWLO4F")
    ∷ (codes "elb.eu-west-2.amazonaws.com", codes "ZD4D7Y8KGAS4G")
    ∷ (codes "elb.eu-west-3.amazonaws.com", codes "Z1CMS0P5QUZ6D5")
    ∷ (codes "elb.eu-north-1.amazonaws.com", codes "Z1UDT6IFJ4EJM")
    ∷ (codes "elb.eu-south-1.amazonaws.com", codes "Z23146JA1KNAFP")
    ∷ (codes "elb.eu-south-2.amazonaws.com", codes "Z1011216NVTVYADP1SSV")
    ∷ (codes "elb.sa-east-1.amazonaws.com", codes "ZTK26PT1VY4CU")
    ∷ (codes "elb.cn-north-1.amazonaws.com.cn", codes "Z3QFB96KMJ7ED6")
    ∷ (codes "elb.cn-northwest-1.amazonaws.com.cn", codes "ZQEIKTCZ8352D")
    ∷ (codes "elb.us-gov-west-1.amazonaws.com", codes "ZMG1MZ2THAWF1")
    ∷ (codes "elb.us-gov-east-1.amazonaws.com", codes "Z1ZSMQQ6Q24QQ8")
    ∷ (codes "elb.mx-central-1.amazonaws.com", codes "Z02031231H3ID6HYJ9A7U")
    ∷ (codes "elb.me-central-1.amazonaws.com", codes "Z00282643NTTLPANJJG2P")
    ∷ (codes "elb.me-south-1.amazonaws.com", codes "Z3QSRYVP46NYYV")
    ∷ (codes "elb.af-south-1.amazonaws.com", codes "Z203XCE67M25HM")
    ∷ (codes "elb.il-central-1.amazonaws.com", codes "Z0313266YDI6ZRHTGQY4")
    ∷ (codes "awsglobalaccelerator.com", codes "Z2BJ6XQ5FK7U4H")
    ∷ (codes "cloudfront.net", codes "Z2FDTNDATAQYW2")
    ∷ (codes "eu-west-2.vpce.amazonaws.com", codes "Z7K1066E3PUKB")
    ∷ (codes "us-east-2.vpce.amazonaws.com", codes "ZC8PG0KIFKBRI")
    ∷ (codes "af-south-1.vpce.amazonaws.com", codes "Z09302161J80N9A7UTP7U")
    ∷ (codes "ap-east-1.vpce.amazonaws.com", codes "Z2LIHJ7PKBEMWN")
    ∷ (codes "ap-east-2.vpce.amazonaws.com", codes "Z09379811HWP0POAUWVN3")
    ∷ (codes "ap-northeast-1.vpce.amazonaws.com", codes "Z2E726K9Y6RL4W")
    ∷ (codes "ap-northeast-2.vpce.amazonaws.com", codes "Z27UANNT0PRK1T")
    ∷ (codes "ap-northeast-3.vpce.amazonaws.com", codes "Z376B5OMM2JZL2")
    ∷ (codes "ap-south-1.vpce.amazonaws.com", codes "Z2KVTB3ZLFM7JR")
    ∷ (codes "ap-south-2.vpce.amazonaws.com", codes "Z0952991RWSF5AHIQDIY")
    ∷ (codes "ap-southeast-1.vpce.amazonaws.com", codes "Z18LLCSTV4NVNL")
    ∷ (codes "ap-southeast-2.vpce.amazonaws.com", codes "ZDK2GCRPAFKGO")
    ∷ (codes "ap-southeast-3.vpce.amazonaws.com", codes "Z03881013RZ9BYYZO8N5W")
    ∷ (codes "ap-southeast-4.vpce.amazonaws.com", codes "Z07508191CO1RNBX3X3AU")
    ∷ (codes "ca-central-1.vpce.amazonaws.com", codes "ZRCXCF510Y6P9")
    ∷ (codes "eu-central-1.vpce.amazonaws.com", codes "Z273ZU8SZ5RJPC")
    ∷ (codes "eu-central-2.vpce.amazonaws.com", codes "Z045369019J4FUQ4S272E")
    ∷ (codes "eu-north-1.vpce.amazonaws.com", codes "Z3OWWK6JFDEDGC")
    ∷ (codes "eu-south-1.vpce.amazonaws.com", codes "Z2A5FDNRLY7KZG")
    ∷ (codes "eu-south-2.vpce.amazonaws.com", codes "Z014396544HENR57XQCJ")
    ∷ (codes "eu-west-1.vpce.amazonaws.com", codes "Z38GZ743OKFT7T")
    ∷ (codes "eu-west-3.vpce.amazonaws.com", codes "Z1DWHTMFP0WECP")
    ∷ (codes "me-central-1.vpce.amazonaws.com", codes "Z07122992YCEUCB9A9570")
    ∷ (codes "me-south-1.vpce.amazonaws.com", codes "Z3B95P3VBGEQGY")
    ∷ (codes "sa-east-1.vpce.amazonaws.com", codes "Z2LXUWEVLCVZIB")
    ∷ (codes "us-east-1.vpce.amazonaws.com", codes "Z7HUB22UULQXV")
    ∷ (codes "us-gov-east-1.vpce.amazonaws.com", codes "Z2MU5TEIGO9WXB")
    ∷ (codes "us-gov-west-1.vpce.amazonaws.com", codes "Z12529ZODG2B6H")
    ∷ (codes "us-west-1.vpce.amazonaws.com", codes "Z12I86A8N7VCZO")
    ∷ (codes "us-west-2.vpce.amazonaws.com", codes "Z1YSA3EXCYUU9Z")
    ∷ (codes "execute-api.us-east-2.amazonaws.com", codes "ZOJJZC49E0EPZ")
    ∷ (codes "execute-api.us-east-1.amazonaws.com", codes "Z1UJRXOUMOOFQ8")
    ∷ (codes "execute-api.us-west-1.amazonaws.com", codes "Z2MUQ32089INYE")
    ∷ (codes "execute-api.us-west-2.amazonaws.com", codes "Z2OJLYMUO9EFXC")
    ∷ (codes "execute-api.af-south-1.amazonaws.com", codes "Z2DHW2332DAMTN")
    ∷ (codes "execute-api.ap-east-1.amazonaws.com", codes "Z3FD1VL90ND7K5")
    ∷ (codes "execute-api.ap-east-2.amazonaws.com", codes "Z02909591O7FG9Q56HWB1")
    ∷ (codes "execute-api.ap-south-1.amazonaws.com", codes "Z3VO1THU9YC4UR")
    ∷ (codes "execute-api.ap-northeast-2.amazonaws.com", codes "Z20JF4UZKIW1U8")
    ∷ (codes "execute-api.ap-southeast-1.amazonaws.com", codes "ZL327KTPIQFUL")
    ∷ (codes "execute-api.ap-southeast-2.amazonaws.com", codes "Z2RPCDW04V8134")
    ∷ (codes "execute-api.ap-northeast-1.amazonaws.com", codes "Z1YSHQZHG15GKL")
    ∷ (codes "execute-api.ca-central-1.amazonaws.com", codes "Z19DQILCV0OWEC")
    ∷ (codes "execute-api.eu-central-1.amazonaws.com", codes "Z1U9ULNL0V5AJ3")
    ∷ (codes "execute-api.eu-west-1.amazonaws.com", codes "ZLY8HYME6SFDD")
    ∷ (codes "execute-api.eu-west-2.amazonaws.com", codes "ZJ5UAJN8Y3Z2Q")
    ∷ (codes "execute-api.eu-south-1.amazonaws.com", codes "Z3BT4WSQ9TDYZV")
    ∷ (codes "execute-api.eu-west-3.amazonaws.com", codes "Z3KY65QIEKYHQQ")
    ∷ (codes "execute-api.eu-south-2.amazonaws.com", codes "Z02499852UI5HEQ5JVWX3")
    ∷ (codes "execute-api.eu-north-1.amazonaws.com", codes "Z3UWIKFBOOGXPP")
    ∷ (codes "execute-api.me-south-1.amazonaws.com", codes "Z20ZBPC0SS8806")
    ∷ (codes "execute-api.me-central-1.amazonaws.com", codes "Z08780021BKYYY8U0YHTV")
    ∷ (codes "execute-api.sa-east-1.amazonaws.com", codes "ZCMLWB8V5SYIT")
    ∷ (codes "execute-api.us-gov-east-1.amazonaws.com", codes "Z3SE9ATJYCRCZJ")
    ∷ (codes "execute-api.us-gov-west-1.amazonaws.com", codes "Z1K6XKP9SAGWDV")
    ∷ []
