-- ===== src/Vpn.antt =====
-- The WireGuard address pool of provider/onprem/provisioner.go and the record of it that
-- internal/controller/ml/nodeprovision_controller.go keeps in the NodeProvisionNetConfig.
pub mod Allocate
pub mod NetConfig
pub mod Conf
pub mod Filter
pub mod Register
pub mod Client
pub mod Examples
