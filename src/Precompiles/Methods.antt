-- ===== src/Precompiles/Methods.antt =====
-- crates/arb-revm/src/precompiles/nitro_methods.rs: the methods of the precompiles as Nitro defines them.
pub mod Agreement
use Prim.Native.String.{String}
use arbitrum_revm.Prelude.{ℕ, List, [], ◌∷◌, ◌++◌}
use arbitrum_revm.Precompiles.{
  ArbPrecompilesEnum, MethodPurity, pure, view, write, payable, arb_address_table, arb_aggregator,
  arb_debug, arb_filtered_transactions_manager, arb_function_table, arb_gas_info, arb_info,
  arb_native_token_manager, arb_owner, arb_owner_public, arb_retryable_tx, arb_statistics, arb_sys,
  arb_wasm, arb_wasm_cache, arbos_acts, arbos_test,
}

-- The precompile, the method, its selector, the precompile's own version, the method's least and
-- greatest version (0 where there is none) and its mutability.
pub data NitroMethod : Type 0 where
  method : ArbPrecompilesEnum → String → ℕ → ℕ → ℕ → ℕ → MethodPurity → NitroMethod

abbrev pub arb_address_table_methods : List NitroMethod
arb_address_table_methods =
    method arb_address_table "addressExists" 0xa5025222 0 0 0 view
    ∷ method arb_address_table "compress" 0xf6a455a2 0 0 0 write
    ∷ method arb_address_table "decompress" 0x31862ada 0 0 0 view
    ∷ method arb_address_table "lookup" 0xd4b6b5da 0 0 0 view
    ∷ method arb_address_table "lookupIndex" 0x8a186788 0 0 0 view
    ∷ method arb_address_table "register" 0x4420e486 0 0 0 write
    ∷ method arb_address_table "size" 0x949d225d 0 0 0 view
    ∷ []

abbrev pub arb_aggregator_methods : List NitroMethod
arb_aggregator_methods =
    method arb_aggregator "addBatchPoster" 0xdf41e1e2 0 0 0 write
    ∷ method arb_aggregator "getBatchPosters" 0xe10573a3 0 0 0 view
    ∷ method arb_aggregator "getDefaultAggregator" 0x875883f2 0 0 0 view
    ∷ method arb_aggregator "getFeeCollector" 0x9c2c5bb5 0 0 0 view
    ∷ method arb_aggregator "getPreferredAggregator" 0x52f10740 0 0 0 view
    ∷ method arb_aggregator "getTxBaseFee" 0x049764af 0 0 0 view
    ∷ method arb_aggregator "setFeeCollector" 0x29149799 0 0 0 write
    ∷ method arb_aggregator "setTxBaseFee" 0x5be6888b 0 0 0 write
    ∷ []

abbrev pub arb_debug_methods : List NitroMethod
arb_debug_methods =
    method arb_debug "becomeChainOwner" 0x0e5bbc11 0 0 0 write
    ∷ method arb_debug "customRevert" 0x7ea89f8b 0 0 0 pure
    ∷ method arb_debug "events" 0x7b9963ef 0 0 0 payable
    ∷ method arb_debug "eventsView" 0x8e5f30ab 0 0 0 view
    ∷ method arb_debug "legacyError" 0x1e48fe82 0 0 0 pure
    ∷ method arb_debug "overwriteContractCode" 0x1be250d6 0 0 0 write
    ∷ method arb_debug "panic" 0x4700d305 0 30 0 write
    ∷ []

abbrev pub arb_filtered_transactions_manager_methods : List NitroMethod
arb_filtered_transactions_manager_methods =
    method arb_filtered_transactions_manager "addFilteredTransaction" 0xcb470491 60 60 0 write
    ∷ method arb_filtered_transactions_manager "deleteFilteredTransaction" 0xd26374b1 60 60 0 write
    ∷ method arb_filtered_transactions_manager "isTransactionFiltered" 0x85c733a4 60 60 0 view
    ∷ []

abbrev pub arb_function_table_methods : List NitroMethod
arb_function_table_methods =
    method arb_function_table "get" 0xb464631b 0 0 0 view
    ∷ method arb_function_table "size" 0x88987068 0 0 0 view
    ∷ method arb_function_table "upload" 0xce2ae159 0 0 0 write
    ∷ []

abbrev pub arb_gas_info_methods_1 : List NitroMethod
arb_gas_info_methods_1 =
    method arb_gas_info "getAmortizedCostCapBips" 0x7a7d6beb 0 0 0 view
    ∷ method arb_gas_info "getCurrentTxL1GasFees" 0xc6f7de0e 0 0 0 view
    ∷ method arb_gas_info "getGasAccountingParams" 0x612af178 0 0 0 view
    ∷ method arb_gas_info "getGasBacklog" 0x1d5b5c20 0 0 0 view
    ∷ method arb_gas_info "getGasBacklogTolerance" 0x25754f91 0 0 0 view
    ∷ method arb_gas_info "getGasPricingConstraints" 0x232027d1 0 50 0 view
    ∷ method arb_gas_info "getL1BaseFeeEstimate" 0xf5d6ded7 0 0 0 view
    ∷ method arb_gas_info "getL1BaseFeeEstimateInertia" 0x29eb31ee 0 0 0 view
    ∷ method arb_gas_info "getL1FeesAvailable" 0x5b39d23c 0 10 0 view
    ∷ method arb_gas_info "getL1GasPriceEstimate" 0x055f362f 0 0 0 view
    ∷ method arb_gas_info "getL1PricingEquilibrationUnits" 0xad26ce90 0 20 0 view
    ∷ method arb_gas_info "getL1PricingFundsDueForRewards" 0x963d6002 0 20 0 view
    ∷ method arb_gas_info "getL1PricingSurplus" 0x520acdd7 0 0 0 view
    ∷ method arb_gas_info "getL1PricingUnitsSinceUpdate" 0xeff01306 0 20 0 view
    ∷ method arb_gas_info "getL1RewardRate" 0x8a5b1d28 0 11 0 view
    ∷ method arb_gas_info "getL1RewardRecipient" 0x9e6d7e31 0 11 0 view
    ∷ []

abbrev pub arb_gas_info_methods_2 : List NitroMethod
arb_gas_info_methods_2 =
    method arb_gas_info "getLastL1PricingSurplus" 0x2987d027 0 20 0 view
    ∷ method arb_gas_info "getLastL1PricingUpdateTime" 0x138b47b4 0 20 0 view
    ∷ method arb_gas_info "getMaxBlockGasLimit" 0x0371fdb4 0 50 0 view
    ∷ method arb_gas_info "getMaxTxGasLimit" 0xaae1cd4c 0 50 0 view
    ∷ method arb_gas_info "getMinimumGasPrice" 0xf918379a 0 0 0 view
    ∷ method arb_gas_info "getMultiGasBaseFee" 0xc0e10bbb 0 60 0 view
    ∷ method arb_gas_info "getMultiGasPricingConstraints" 0xbbfc0a72 0 60 0 view
    ∷ method arb_gas_info "getPerBatchGasCharge" 0x6ecca45a 0 0 0 view
    ∷ method arb_gas_info "getPricesInArbGas" 0x02199f34 0 0 0 view
    ∷ method arb_gas_info "getPricesInArbGasWithAggregator" 0x7a1ea732 0 0 0 view
    ∷ method arb_gas_info "getPricesInWei" 0x41b247a8 0 0 0 view
    ∷ method arb_gas_info "getPricesInWeiWithAggregator" 0xba9c916e 0 0 0 view
    ∷ method arb_gas_info "getPricingInertia" 0x3dfb45b9 0 0 0 view
    ∷ []

abbrev pub arb_info_methods : List NitroMethod
arb_info_methods =
    method arb_info "getBalance" 0xf8b2cb4f 0 0 0 view
    ∷ method arb_info "getCode" 0x7e105ce2 0 0 0 view
    ∷ []

abbrev pub arb_native_token_manager_methods : List NitroMethod
arb_native_token_manager_methods =
    method arb_native_token_manager "burnNativeToken" 0x1c679a3c 41 41 0 write
    ∷ method arb_native_token_manager "mintNativeToken" 0xa6f0f7c7 41 41 0 write
    ∷ []

abbrev pub arb_owner_methods_1 : List NitroMethod
arb_owner_methods_1 =
    method arb_owner "addChainOwner" 0x481f8dbf 0 0 0 write
    ∷ method arb_owner "addNativeTokenOwner" 0xaeb3a464 0 41 0 write
    ∷ method arb_owner "addTransactionFilterer" 0x59c87acc 0 60 0 write
    ∷ method arb_owner "addWasmCacheManager" 0xffdca515 0 30 0 write
    ∷ method arb_owner "getAllChainOwners" 0x516b4e0f 0 0 0 view
    ∷ method arb_owner "getAllNativeTokenOwners" 0x3f8601e4 0 41 0 view
    ∷ method arb_owner "getAllTransactionFilterers" 0x595fbb5a 0 60 0 view
    ∷ method arb_owner "getFilteredFundsRecipient" 0x3caa5f12 0 60 0 view
    ∷ method arb_owner "getInfraFeeAccount" 0xee95a824 0 5 0 view
    ∷ method arb_owner "getNetworkFeeAccount" 0x2d9125e9 0 0 0 view
    ∷ method arb_owner "isChainOwner" 0x26ef7f68 0 0 0 view
    ∷ method arb_owner "isNativeTokenOwner" 0xc686f4db 0 41 0 view
    ∷ method arb_owner "isTransactionFilterer" 0xb32352c3 0 60 0 view
    ∷ method arb_owner "releaseL1PricerSurplusFunds" 0x314bcf05 0 10 0 write
    ∷ method arb_owner "removeChainOwner" 0x8792701a 0 0 0 write
    ∷ method arb_owner "removeNativeTokenOwner" 0x96a3751d 0 41 0 write
    ∷ []

abbrev pub arb_owner_methods_2 : List NitroMethod
arb_owner_methods_2 =
    method arb_owner "removeTransactionFilterer" 0x67ada089 0 60 0 write
    ∷ method arb_owner "removeWasmCacheManager" 0xbf197322 0 30 0 write
    ∷ method arb_owner "scheduleArbOSUpgrade" 0xe388b381 0 0 0 write
    ∷ method arb_owner "setAmortizedCostCapBips" 0x56191cc3 0 0 0 write
    ∷ method arb_owner "setBrotliCompressionLevel" 0x5399126f 0 20 0 write
    ∷ method arb_owner "setCalldataPriceIncrease" 0x8eb911d9 0 40 0 write
    ∷ method arb_owner "setChainConfig" 0xeda73212 0 11 0 write
    ∷ method arb_owner "setCollectTips" 0xa858dbe2 0 60 0 write
    ∷ method arb_owner "setFilteredFundsRecipient" 0xb79da0e9 0 60 0 write
    ∷ method arb_owner "setGasBacklog" 0x68fc808a 0 50 0 write
    ∷ method arb_owner "setGasPricingConstraints" 0xcc0d556a 0 50 0 write
    ∷ method arb_owner "setInfraFeeAccount" 0x57f585db 0 5 0 write
    ∷ method arb_owner "setInkPrice" 0x8c1d4fda 0 30 0 write
    ∷ method arb_owner "setL1BaseFeeEstimateInertia" 0x718f7805 0 0 0 write
    ∷ method arb_owner "setL1PricePerUnit" 0x2b352fae 0 0 0 write
    ∷ method arb_owner "setL1PricingEquilibrationUnits" 0x152db696 0 0 0 write
    ∷ []

abbrev pub arb_owner_methods_3 : List NitroMethod
arb_owner_methods_3 =
    method arb_owner "setL1PricingInertia" 0x775a82e9 0 0 0 write
    ∷ method arb_owner "setL1PricingRewardRate" 0xf6739500 0 0 0 write
    ∷ method arb_owner "setL1PricingRewardRecipient" 0x934be07d 0 0 0 write
    ∷ method arb_owner "setL2BaseFee" 0xd99bc80e 0 0 0 write
    ∷ method arb_owner "setL2GasBacklogTolerance" 0x198e7157 0 0 0 write
    ∷ method arb_owner "setL2GasPricingInertia" 0x3fd62a29 0 0 0 write
    ∷ method arb_owner "setMaxBlockGasLimit" 0xae105c80 0 50 0 write
    ∷ method arb_owner "setMaxStylusContractFragments" 0xf1fe1a70 0 60 0 write
    ∷ method arb_owner "setMaxTxGasLimit" 0x39673611 0 0 0 write
    ∷ method arb_owner "setMinimumL2BaseFee" 0xa0188cdb 0 0 0 write
    ∷ method arb_owner "setMultiGasPricingConstraints" 0x2b05bb39 0 60 0 write
    ∷ method arb_owner "setNativeTokenManagementFrom" 0xbdb8f707 0 41 0 write
    ∷ method arb_owner "setNetworkFeeAccount" 0xfcdde2b4 0 0 0 write
    ∷ method arb_owner "setParentGasFloorPerToken" 0x3a930b0b 0 50 0 write
    ∷ method arb_owner "setPerBatchGasCharge" 0xfad7f20b 0 0 0 write
    ∷ method arb_owner "setSpeedLimit" 0x4d7a060d 0 0 0 write
    ∷ []

abbrev pub arb_owner_methods_4 : List NitroMethod
arb_owner_methods_4 =
    method arb_owner "setTransactionFilteringFrom" 0x46066e45 0 60 0 write
    ∷ method arb_owner "setWasmActivationGas" 0xa0a32497 0 59 0 write
    ∷ method arb_owner "setWasmBlockCacheSize" 0x380f1457 0 30 0 write
    ∷ method arb_owner "setWasmExpiryDays" 0xaac68018 0 30 0 write
    ∷ method arb_owner "setWasmFreePages" 0x3f37a846 0 30 0 write
    ∷ method arb_owner "setWasmInitCostScalar" 0x67e0718f 0 30 0 write
    ∷ method arb_owner "setWasmKeepaliveDays" 0x2a9cbe3e 0 30 0 write
    ∷ method arb_owner "setWasmMaxSize" 0x455ec2eb 0 40 0 write
    ∷ method arb_owner "setWasmMaxStackDepth" 0x4567cc8e 0 30 0 write
    ∷ method arb_owner "setWasmMinInitGas" 0x8293405e 0 30 0 write
    ∷ method arb_owner "setWasmPageGas" 0xaaa619e0 0 30 0 write
    ∷ method arb_owner "setWasmPageLimit" 0x6595381a 0 30 0 write
    ∷ []

abbrev pub arb_owner_public_methods_1 : List NitroMethod
arb_owner_public_methods_1 =
    method arb_owner_public "getAllChainOwners" 0x516b4e0f 0 0 0 view
    ∷ method arb_owner_public "getAllNativeTokenOwners" 0x3f8601e4 0 41 0 view
    ∷ method arb_owner_public "getAllTransactionFilterers" 0x595fbb5a 0 60 0 view
    ∷ method arb_owner_public "getBrotliCompressionLevel" 0x22d499c7 0 20 0 view
    ∷ method arb_owner_public "getCollectTips" 0x8e34a64d 0 60 0 view
    ∷ method arb_owner_public "getFilteredFundsRecipient" 0x3caa5f12 0 60 0 view
    ∷ method arb_owner_public "getInfraFeeAccount" 0xee95a824 0 5 0 view
    ∷ method arb_owner_public "getMaxStylusContractFragments" 0xe5a7f893 0 60 0 view
    ∷ method arb_owner_public "getNativeTokenManagementFrom" 0x3fecbab0 0 50 0 view
    ∷ method arb_owner_public "getNetworkFeeAccount" 0x2d9125e9 0 0 0 view
    ∷ method arb_owner_public "getParentGasFloorPerToken" 0x49ccdaff 0 50 0 view
    ∷ method arb_owner_public "getScheduledUpgrade" 0x81ef944c 0 20 0 view
    ∷ method arb_owner_public "getTransactionFilteringFrom" 0xc1d355b8 0 60 0 view
    ∷ method arb_owner_public "isCalldataPriceIncreaseEnabled" 0x2aa9551e 0 40 0 view
    ∷ method arb_owner_public "isChainOwner" 0x26ef7f68 0 0 0 view
    ∷ method arb_owner_public "isNativeTokenOwner" 0xc686f4db 0 41 0 view
    ∷ []

abbrev pub arb_owner_public_methods_2 : List NitroMethod
arb_owner_public_methods_2 =
    method arb_owner_public "isTransactionFilterer" 0xb32352c3 0 60 0 view
    ∷ method arb_owner_public "rectifyChainOwner" 0x6fe86373 0 11 0 write
    ∷ []

abbrev pub arb_retryable_tx_methods : List NitroMethod
arb_retryable_tx_methods =
    method arb_retryable_tx "cancel" 0xc4d252f5 0 0 0 write
    ∷ method arb_retryable_tx "getBeneficiary" 0xba20dda4 0 0 0 view
    ∷ method arb_retryable_tx "getCurrentRedeemer" 0xde4ba2b3 0 0 0 view
    ∷ method arb_retryable_tx "getLifetime" 0x81e6e083 0 0 0 view
    ∷ method arb_retryable_tx "getTimeout" 0x9f1025c6 0 0 0 view
    ∷ method arb_retryable_tx "keepalive" 0xf0b21a41 0 0 0 write
    ∷ method arb_retryable_tx "redeem" 0xeda1122c 0 0 0 write
    ∷ method arb_retryable_tx "submitRetryable" 0xc9f95d32 0 0 0 write
    ∷ []

abbrev pub arb_statistics_methods : List NitroMethod
arb_statistics_methods = method arb_statistics "getStats" 0xc59d4847 0 0 0 view ∷ []

abbrev pub arb_sys_methods : List NitroMethod
arb_sys_methods =
    method arb_sys "arbBlockHash" 0x2b407a82 0 0 0 view
    ∷ method arb_sys "arbBlockNumber" 0xa3b1b31d 0 0 0 view
    ∷ method arb_sys "arbChainID" 0xd127f54a 0 0 0 view
    ∷ method arb_sys "arbOSVersion" 0x051038f2 0 0 0 view
    ∷ method arb_sys "getStorageGasAvailable" 0xa94597ff 0 0 0 view
    ∷ method arb_sys "isTopLevelCall" 0x08bd624c 0 0 0 view
    ∷ method arb_sys "mapL1SenderContractAddressToL2Alias" 0x4dbbd506 0 0 0 pure
    ∷ method arb_sys "myCallersAddressWithoutAliasing" 0xd74523b3 0 0 0 view
    ∷ method arb_sys "sendMerkleTreeState" 0x7aeecd2a 0 0 0 view
    ∷ method arb_sys "sendTxToL1" 0x928c169a 0 0 0 payable
    ∷ method arb_sys "wasMyCallersAddressAliased" 0x175a260b 0 0 0 view
    ∷ method arb_sys "withdrawEth" 0x25e16063 0 0 0 payable
    ∷ []

abbrev pub arb_wasm_methods_1 : List NitroMethod
arb_wasm_methods_1 =
    method arb_wasm "activateProgram" 0x58c780c2 30 30 0 payable
    ∷ method arb_wasm "activationGas" 0x2278c278 30 59 0 view
    ∷ method arb_wasm "blockCacheSize" 0x7af6e819 30 30 0 view
    ∷ method arb_wasm "codehashAsmSize" 0x4089267f 30 30 0 view
    ∷ method arb_wasm "codehashKeepalive" 0xc689bad5 30 30 0 payable
    ∷ method arb_wasm "codehashVersion" 0xd70c0ca7 30 30 0 view
    ∷ method arb_wasm "expiryDays" 0x309f6555 30 30 0 view
    ∷ method arb_wasm "freePages" 0x4490c19d 30 30 0 view
    ∷ method arb_wasm "initCostScalar" 0x5fc94c0b 30 30 0 view
    ∷ method arb_wasm "inkPrice" 0xd1c17abc 30 30 0 view
    ∷ method arb_wasm "keepaliveDays" 0x0a936455 30 30 0 view
    ∷ method arb_wasm "maxStackDepth" 0x8ccfaa70 30 30 0 view
    ∷ method arb_wasm "minInitGas" 0x99d0b38d 30 30 0 view
    ∷ method arb_wasm "pageGas" 0x7af4ba49 30 30 0 view
    ∷ method arb_wasm "pageLimit" 0x9786f96e 30 30 0 view
    ∷ method arb_wasm "pageRamp" 0x11c82ae8 30 30 0 view
    ∷ []

abbrev pub arb_wasm_methods_2 : List NitroMethod
arb_wasm_methods_2 =
    method arb_wasm "programInitGas" 0x62b688aa 30 30 0 view
    ∷ method arb_wasm "programMemoryFootprint" 0xaef36be3 30 30 0 view
    ∷ method arb_wasm "programTimeLeft" 0xc775a62a 30 30 0 view
    ∷ method arb_wasm "programVersion" 0xcc8f4e88 30 30 0 view
    ∷ method arb_wasm "stylusVersion" 0xa996e0c2 30 30 0 view
    ∷ []

abbrev pub arb_wasm_cache_methods : List NitroMethod
arb_wasm_cache_methods =
    method arb_wasm_cache "allCacheManagers" 0x0ec1d773 30 30 0 view
    ∷ method arb_wasm_cache "cacheCodehash" 0x4ceac817 30 30 30 write
    ∷ method arb_wasm_cache "cacheProgram" 0xe73ac9f2 30 31 0 write
    ∷ method arb_wasm_cache "codehashIsCached" 0xa72f179b 30 30 0 view
    ∷ method arb_wasm_cache "evictCodehash" 0xce972013 30 30 0 write
    ∷ method arb_wasm_cache "isCacheManager" 0x85e2de85 30 30 0 view
    ∷ []

abbrev pub arbos_acts_methods : List NitroMethod
arbos_acts_methods =
    method arbos_acts "batchPostingReport" 0xb6693771 0 0 0 write
    ∷ method arbos_acts "batchPostingReportV2" 0x9998269e 0 0 0 write
    ∷ method arbos_acts "startBlock" 0x6bf6a42d 0 0 0 write
    ∷ []

abbrev pub arbos_test_methods : List NitroMethod
arbos_test_methods = method arbos_test "burnArbGas" 0xbb3480f9 0 0 0 pure ∷ []

abbrev pub nitro_methods : List NitroMethod
nitro_methods =
    arb_address_table_methods ++ arb_aggregator_methods ++ arb_debug_methods
    ++ arb_filtered_transactions_manager_methods ++ arb_function_table_methods
    ++ arb_gas_info_methods_1 ++ arb_gas_info_methods_2 ++ arb_info_methods
    ++ arb_native_token_manager_methods ++ arb_owner_methods_1 ++ arb_owner_methods_2
    ++ arb_owner_methods_3 ++ arb_owner_methods_4 ++ arb_owner_public_methods_1
    ++ arb_owner_public_methods_2 ++ arb_retryable_tx_methods ++ arb_statistics_methods
    ++ arb_sys_methods ++ arb_wasm_methods_1 ++ arb_wasm_methods_2 ++ arb_wasm_cache_methods
    ++ arbos_acts_methods ++ arbos_test_methods
